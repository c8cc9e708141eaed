-- ===== src/Ipc/Kill.antt =====
-- The flag of the manual kill in engine/src/ipc.rs: what raises it.
use high_frequency_market_ma.Prelude.{
  ◌≡◌, ◌⊎◌, ◌↔◌, inl, inr, refl, ap, ◌∙◌, Bool, true, false, Option, List, [], ◌∷◌, if◌then◌else◌,
  Bool-cases,
}
use high_frequency_market_ma.Ipc.{
  Text, trim, eq_ignore_ascii_case, kill_word, ReadLine, closed, line, failed, read_loop, Client,
  handle_client, Accept, connected, would_block, refused, accept_loop, run_server,
}
use high_frequency_market_ma.Ipc.Command.{IsKill, line-IsKill}

-- The lines that a reader takes in before its loop ends.
pub data Heard : List (ReadLine × Bool) → Text → Type 0 where
  now :
      {l : Text} {shutdown : Bool} {rs : List (ReadLine × Bool)} → Heard ((line l, shutdown) ∷ rs) l
  later :
      {l other : Text} {rs : List (ReadLine × Bool)}
      → Heard rs l
      → Heard ((line other, false) ∷ rs) l

if_true : (b : Bool) → (if b then true else true) ≡ true
if_true true = refl
if_true false = refl

read_loop-raised : (rs : List (ReadLine × Bool)) → read_loop rs true ≡ true
unfolding read_loop
read_loop-raised [] = refl
read_loop-raised ((closed, sd) ∷ rs) = refl
read_loop-raised ((failed, sd) ∷ rs) = refl
read_loop-raised ((line l, true) ∷ rs) = if_true (eq_ignore_ascii_case (trim l) kill_word)
read_loop-raised ((line l, false) ∷ rs) =
    ap (read_loop rs) (if_true (eq_ignore_ascii_case (trim l) kill_word)) ∙ read_loop-raised rs

read_loop-Heard :
    {rs : List (ReadLine × Bool)} {l : Text} (kill : Bool)
    → Heard rs l
    → IsKill l
    → read_loop rs kill ≡ true
unfolding read_loop
read_loop-Heard kill (now {l = l} {shutdown = true} {rs = rs}) h = rw ((line-IsKill l).1 h) refl
read_loop-Heard kill (now {l = l} {shutdown = false} {rs = rs}) h =
    rw ((line-IsKill l).1 h) (read_loop-raised rs)
read_loop-Heard kill (later r) h = read_loop-Heard _ r h

read_loop-cause :
    (rs : List (ReadLine × Bool)) → read_loop rs false ≡ true → (l : Text) × Heard rs l × IsKill l
unfolding read_loop
read_loop-cause [] e = cc
read_loop-cause ((closed, sd) ∷ rs) e = cc
read_loop-cause ((failed, sd) ∷ rs) e = cc
read_loop-cause ((line l, sd) ∷ rs) e =
    elim (Bool-cases (eq_ignore_ascii_case (trim l) kill_word)) [
      | inl t ↦ (l, now, (line-IsKill l).0 t)
      | inr f ↦ later_cause sd (λ e'. read_loop-cause rs e') (rw f at e)
    ]
  where
    later_cause :
        (sd : Bool)
        → (read_loop rs false ≡ true → (l' : Text) × Heard rs l' × IsKill l')
        → (if sd then false else read_loop rs false) ≡ true
        → (l' : Text) × Heard ((line l, sd) ∷ rs) l' × IsKill l'
    later_cause true next e' = cc
    later_cause false next e' = let (l', h, k) = next e' in (l', later h, k)

module _ {ℓ} {S : Type ℓ} where
  -- The clients that the server takes in before the shutdown.
  pub data Accepted : List (Bool × Accept S) → Client S → Type ℓ where
    first : {c : Client S} {rs : List (Bool × Accept S)} → Accepted ((false, connected c) ∷ rs) c
    further :
        {c : Client S} {a : Accept S} {rs : List (Bool × Accept S)}
        → Accepted rs c
        → Accepted ((false, a) ∷ rs) c

  -- One of a client's lines that were taken in is the kill command.
  pub record Kills (c : Client S) : Type 0 where
    pub cloned : c.cloned ≡ true
    pub text : Text
    pub heard : Heard c.reads text
    pub command : IsKill text

  module _ (to_string : S → Option Text) where
    handle_client-raised : (c : Client S) → (handle_client to_string c true).0 ≡ true
    unfolding handle_client
    handle_client-raised c = elim (Bool-cases c.cloned) [
      | inl t ↦ rw t (read_loop-raised c.reads)
      | inr f ↦ rw f refl
    ]

    handle_client-Kills :
        (c : Client S) (kill : Bool) → Kills c → (handle_client to_string c kill).0 ≡ true
    unfolding handle_client
    handle_client-Kills c kill h = rw h.cloned (read_loop-Heard kill h.heard h.command)

    handle_client-cause : (c : Client S) → (handle_client to_string c false).0 ≡ true → Kills c
    unfolding handle_client
    handle_client-cause c e = elim (Bool-cases c.cloned) [
      | inl t ↦
          let (l, h, k) = read_loop-cause c.reads (rw t at e) in
          record { cloned = t; text = l; heard = h; command = k }
      | inr f ↦ (let e' : false ≡ true = (rw f at e) in cc)
    ]

    accept_loop-raised : (rs : List (Bool × Accept S)) → (accept_loop to_string rs true).0 ≡ true
    unfolding accept_loop
    accept_loop-raised [] = refl
    accept_loop-raised ((true, a) ∷ rs) = refl
    accept_loop-raised ((false, connected c) ∷ rs) =
        rw (handle_client-raised c) (accept_loop-raised rs)
    accept_loop-raised ((false, would_block) ∷ rs) = accept_loop-raised rs
    accept_loop-raised ((false, refused) ∷ rs) = accept_loop-raised rs

    accept_loop-Kills :
        {rs : List (Bool × Accept S)} {c : Client S} (kill : Bool)
        → Accepted rs c
        → Kills c
        → (accept_loop to_string rs kill).0 ≡ true
    unfolding accept_loop
    accept_loop-Kills kill (first {c = c} {rs = rs}) h =
        rw (handle_client-Kills c kill h) (accept_loop-raised rs)
    accept_loop-Kills kill (further {a = connected d} a) h = accept_loop-Kills _ a h
    accept_loop-Kills kill (further {a = would_block} a) h = accept_loop-Kills kill a h
    accept_loop-Kills kill (further {a = refused} a) h = accept_loop-Kills kill a h

    accept_loop-cause :
        (rs : List (Bool × Accept S))
        → (accept_loop to_string rs false).0 ≡ true
        → (c : Client S) × Accepted rs c × Kills c
    unfolding accept_loop
    accept_loop-cause [] e = cc
    accept_loop-cause ((true, a) ∷ rs) e = cc
    accept_loop-cause ((false, connected c) ∷ rs) e =
        elim (Bool-cases (handle_client to_string c false).0) [
          | inl t ↦ (c, first, handle_client-cause c t)
          | inr f ↦ let (d, a, k) = accept_loop-cause rs (rw f at e) in (d, further a, k)
        ]
    accept_loop-cause ((false, would_block) ∷ rs) e =
        let (d, a, k) = accept_loop-cause rs e in (d, further a, k)
    accept_loop-cause ((false, refused) ∷ rs) e =
        let (d, a, k) = accept_loop-cause rs e in (d, further a, k)

    -- The monitor server leaves the flag of the manual kill raised exactly where it was
    -- raised before, or it could bind its address and a client that it accepted before the
    -- shutdown, whose socket it could clone, sent a line before its reader ended that is the
    -- word kill in any mix of cases, with white space around it.
    pub run_server-kill :
        (bound : Bool) (rounds : List (Bool × Accept S)) (kill : Bool)
        → ((run_server to_string bound rounds kill).0 ≡ true)
          ↔ ((kill ≡ true) ⊎ ((bound ≡ true) × (c : Client S) × Accepted rounds c × Kills c))
    unfolding run_server
    run_server-kill bound rounds true = (λ e. inl refl, λ h. raised bound)
      where
        raised : (b : Bool) → (if b then accept_loop to_string rounds true else (true, [])).0 ≡ true
        raised true = accept_loop-raised rounds
        raised false = refl
    run_server-kill true rounds false = (
      λ e. let (c, a, k) = accept_loop-cause rounds e in inr (refl, c, a, k),
      λ h. elim h [ inl e ↦ cc | inr (b, c, a, k) ↦ accept_loop-Kills false a k ],
    )
    run_server-kill false rounds false = (λ e. cc, λ h. elim h [ inl e ↦ e | inr h ↦ h.0 ])
