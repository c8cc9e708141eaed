-- ===== src/Strategy/Codec.antt =====
-- A stand-in for the JSON of the packets of engine/src/market_sim.rs and engine/src/udp_feed.rs, for
-- tests: a list of numbers for each field.
use high_frequency_market_ma.Prelude.{
  ℕ, zero, suc, ◌≡◌, refl, Bool, true, false, Option, none, some, List, [], ◌∷◌, take,
}
use high_frequency_market_ma.Prelude.Int.{ℤ, pos, negsuc}
use high_frequency_market_ma.Types.{Side, bid, ask, MarketEvent, add, cancel, trade, FeedPacket}

abbrev side_code : Side → ℕ
side_code bid = 0
side_code ask = 1

abbrev code_side : ℕ → Side
code_side zero = bid
code_side (suc n) = ask

abbrev flag_code : Bool → ℕ
flag_code false = 0
flag_code true = 1

abbrev code_flag : ℕ → Bool
code_flag zero = false
code_flag (suc n) = true

abbrev sign_code : ℤ → ℕ
sign_code (pos n) = 0
sign_code (negsuc n) = 1

abbrev size_code : ℤ → ℕ
size_code (pos n) = n
size_code (negsuc n) = n

abbrev code_price : ℕ → ℕ → ℤ
code_price zero n = pos n
code_price (suc s) n = negsuc n

abbrev pub encode : FeedPacket → List ℕ
encode p = encode_event p.event
  where
    encode_event : MarketEvent → List ℕ
    encode_event (add id side price qty ts ours) =
        0
        ∷ p.seq
        ∷ id
        ∷ side_code side
        ∷ sign_code price
        ∷ size_code price
        ∷ ts
        ∷ qty
        ∷ flag_code ours
        ∷ []
    encode_event (cancel id side price ts) =
        1 ∷ p.seq ∷ id ∷ side_code side ∷ sign_code price ∷ size_code price ∷ ts ∷ []
    encode_event (trade id ours side price qty ts) =
        2
        ∷ p.seq
        ∷ id
        ∷ side_code side
        ∷ sign_code price
        ∷ size_code price
        ∷ ts
        ∷ qty
        ∷ flag_code ours
        ∷ []

abbrev decode_tail : ℕ → ℕ → ℕ → Side → ℤ → ℕ → List ℕ → Option FeedPacket
decode_tail zero seq id side price ts (qty ∷ flag ∷ []) =
    some (record { seq = seq; event = add id side price qty ts (code_flag flag) })
decode_tail (suc zero) seq id side price ts [] =
    some (record { seq = seq; event = cancel id side price ts })
decode_tail (suc (suc n)) seq id side price ts (qty ∷ flag ∷ []) =
    some (record { seq = seq; event = trade id (code_flag flag) side price qty ts })
decode_tail tag seq id side price ts rest = none

abbrev pub decode : List ℕ → Option FeedPacket
decode (tag ∷ seq ∷ id ∷ side ∷ sign ∷ size ∷ ts ∷ rest) =
    decode_tail tag seq id (code_side side) (code_price sign size) ts rest
decode other = none

pub decode-encode : (p : FeedPacket) → decode (take 2048 (encode p)) ≡ some p
decode-encode p = go p.event
  where
    go :
        (e : MarketEvent)
        → decode (take 2048 (encode (record { seq = p.seq; event = e })))
          ≡ some (record { seq = p.seq; event = e })
    go (add id bid (pos n) qty ts false) = refl
    go (add id bid (pos n) qty ts true) = refl
    go (add id bid (negsuc n) qty ts false) = refl
    go (add id bid (negsuc n) qty ts true) = refl
    go (add id ask (pos n) qty ts false) = refl
    go (add id ask (pos n) qty ts true) = refl
    go (add id ask (negsuc n) qty ts false) = refl
    go (add id ask (negsuc n) qty ts true) = refl
    go (cancel id bid (pos n) ts) = refl
    go (cancel id bid (negsuc n) ts) = refl
    go (cancel id ask (pos n) ts) = refl
    go (cancel id ask (negsuc n) ts) = refl
    go (trade id false bid (pos n) qty ts) = refl
    go (trade id false bid (negsuc n) qty ts) = refl
    go (trade id false ask (pos n) qty ts) = refl
    go (trade id false ask (negsuc n) qty ts) = refl
    go (trade id true bid (pos n) qty ts) = refl
    go (trade id true bid (negsuc n) qty ts) = refl
    go (trade id true ask (pos n) qty ts) = refl
    go (trade id true ask (negsuc n) qty ts) = refl
