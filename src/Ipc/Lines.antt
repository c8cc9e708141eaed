-- ===== src/Ipc/Lines.antt =====
-- What a monitor reads of engine/src/ipc.rs: the lines that the writer's loop has sent.
use high_frequency_market_ma.Prelude.{
  ℕ, zero, suc, ◌≡◌, ◌≢◌, refl, ap, sym, Bool-cases, inl, inr, ◌∙◌, Bool, true, false, Option, List,
  [], ◌∷◌, ◌++◌, map, append-nil, append_assoc, All, take, ◌==◌, ne→==_false, if◌then◌else◌,
}
use high_frequency_market_ma.Ipc.{
  Text, Written, whole, broken, WriteRound, payload, after_payload, write_loop,
}

-- The lines that are complete: what stands before each newline.
unfoldable pub read_lines : Text → Text → List Text
read_lines line [] = []
read_lines line (c ∷ cs) =
    let next = read_lines [] cs in
    let longer = read_lines (line ++ c ∷ []) cs in if c == 10 then line ∷ next else longer

abbrev pub NoNewline : Text → Type 0
NoNewline l = All (λ c. c ≢ 10) l

read_lines-append :
    (line bytes rest : Text)
    → NoNewline bytes
    → read_lines line (bytes ++ 10 ∷ rest) ≡ (line ++ bytes) ∷ read_lines [] rest
unfolding read_lines
read_lines-append line [] rest h = ap (λ l. l ∷ read_lines [] rest) (sym (append-nil line))
read_lines-append line (c ∷ bytes) rest (h, hs) = rw (ne→==_false c 10 h) (
    read_lines-append (line ++ c ∷ []) bytes rest hs
    ∙ ap (λ l. l ∷ read_lines [] rest) (append_assoc line (c ∷ []) bytes))

read_lines-none : (line bytes : Text) → NoNewline bytes → read_lines line bytes ≡ []
unfolding read_lines
read_lines-none line [] h = refl
read_lines-none line (c ∷ bytes) (h, hs) =
    rw (ne→==_false c 10 h) (read_lines-none (line ++ c ∷ []) bytes hs)

NoNewline-take : (n : ℕ) (l : Text) → NoNewline l → NoNewline (take n l)
NoNewline-take zero l h = tt
NoNewline-take (suc n) [] h = tt
NoNewline-take (suc n) (c ∷ l) (h, hs) = (h, NoNewline-take n l hs)

-- Both writes of a round went through.
abbrev pub is_whole : Written → Written → Bool
is_whole whole whole = true
is_whole whole (broken n) = false
is_whole (broken n) w = false

module _ {ℓ} {S : Type ℓ} where
  -- The snapshots of the rounds before the shutdown and before the first write that fails.
  abbrev pub published : List (WriteRound S) → List S
  published [] = []
  published (r ∷ rs) =
      let rest = published rs in
      if r.shutdown
      then []
      else if is_whole r.payload_write r.newline_write
      then r.snapshot ∷ rest
      else []

  module _ (to_string : S → Option Text) (compact : (s : S) → NoNewline (payload to_string s)) where
    after_payload-lines :
        (s : S) (p n : Written) (bytes : Text) (rest : List S)
        → read_lines [] bytes ≡ map (payload to_string) rest
        → read_lines [] (after_payload (payload to_string s) p n bytes)
          ≡ map (payload to_string) (if is_whole p n then s ∷ rest else [])
    after_payload-lines s whole whole bytes rest h =
        read_lines-append [] (payload to_string s) bytes (compact s)
        ∙ ap (λ ls. payload to_string s ∷ ls) h
    after_payload-lines s whole (broken n) bytes rest h =
        ap (read_lines []) (append-nil (payload to_string s))
        ∙ read_lines-none [] (payload to_string s) (compact s)
    after_payload-lines s (broken k) n bytes rest h =
        read_lines-none [] (take k (payload to_string s)) (NoNewline-take k _ (compact s))

    -- Where the text of no snapshot has a newline in it, the complete lines that a client
    -- reads are the texts of the snapshots of the rounds before the shutdown and before the
    -- first write that fails, each once and in their order.
    pub read_lines-write_loop :
        (rs : List (WriteRound S))
        → read_lines [] (write_loop to_string rs) ≡ map (payload to_string) (published rs)
    unfolding write_loop read_lines
    read_lines-write_loop [] = refl
    read_lines-write_loop (r ∷ rs) = elim (Bool-cases r.shutdown) [
      | inl t ↦ rw t refl
      | inr f ↦ rw f (
          after_payload-lines r.snapshot r.payload_write r.newline_write (write_loop to_string rs)
            (published rs) (read_lines-write_loop rs))
    ]
