-- ===== src/Engine/Laws.antt =====
-- What a pull over the torrent client reports and returns.
use llmp2p.Common.{
  ℕ, Bool, true, false, List, [], ◌∷◌, ◌++◌, Option, none, some, ok, ◌≡◌, refl, ap, arith, ◌+◌,
  length, All,
}
use llmp2p.Common.Bytes.{Bytes, to_lower, lower_byte, is_upper, is_digit}
use llmp2p.Common.Bytes.Hex.{hex_decode, hex_value, hex_pair}
use llmp2p.Engine.{Progress, hash_from_hex, pull_loop, pull}

abbrev IsOpen : Progress → Type 0
IsOpen p = p.complete ≡ false

-- The progress that is seen before the first complete one, and that one.
pub record Completed (seen reported : List Progress) : Type 0 where
  pub before : List Progress
  pub last : Progress
  pub rest : List Progress
  pub was_seen : seen ≡ before ++ last ∷ rest
  pub was_reported : reported ≡ before ++ last ∷ []
  pub open_before : All IsOpen before
  pub complete_last : last.complete ≡ true

pull_loop-Completed :
    (p : Progress) (ps : List Progress)
    → (pull_loop p ps).1 ≡ none
    → Completed (p ∷ ps) (pull_loop p ps).0
unfolding pull_loop
pull_loop-Completed p [] h = record {
  before = [];
  last = p;
  rest = [];
  was_seen = refl;
  was_reported = refl;
  open_before = tt;
  complete_last = ground arith;
}
pull_loop-Completed p (r ∷ rs) h = go (pull_loop-Completed r rs) p.complete refl
  where
    go :
        ((pull_loop r rs).1 ≡ none → Completed (r ∷ rs) (pull_loop r rs).0)
        → (b : Bool) → p.complete ≡ b
        → Completed (p ∷ r ∷ rs) (pull_loop p (r ∷ rs)).0
    go later true e = record {
      before = [];
      last = p;
      rest = r ∷ rs;
      was_seen = refl;
      was_reported = ground arith;
      open_before = tt;
      complete_last = e;
    }
    go later false e =
        let c = later (ground arith) in
        record {
          before = p ∷ c.before;
          last = c.last;
          rest = c.rest;
          was_seen = ap (λ t. p ∷ t) c.was_seen;
          was_reported = ground (arith, c.was_reported);
          open_before = (e, c.open_before);
          complete_last = c.complete_last;
        }

-- A pull from the swarm that returns no error has seen a complete torrent; it has reported all progress
-- up to the first complete observation, and nothing after it.
pub pull-Completed : (ps : List Progress) → (pull ps).1 ≡ none → Completed ps (pull ps).0
unfolding pull
pull-Completed [] h = absurd (ground arith)
pull-Completed (p ∷ ps) h = pull_loop-Completed p ps h

hex_value-lower_byte : (c : ℕ) → hex_value (lower_byte c) ≡ hex_value c
unfolding hex_value lower_byte is_upper is_digit
hex_value-lower_byte c = ground arith

hex_decode-to_lower : (s : Bytes) → hex_decode (to_lower s) ≡ hex_decode s
unfolding hex_decode to_lower
hex_decode-to_lower [] = refl
hex_decode-to_lower (a ∷ []) = refl
hex_decode-to_lower (a ∷ b ∷ s) =
    rw (hex_value-lower_byte a, hex_value-lower_byte b, hex_decode-to_lower s) refl

length-hex_decode : (s b : Bytes) → hex_decode s ≡ some b → length s ≡ length b + length b
unfolding hex_decode hex_pair
length-hex_decode [] b h = ground arith
length-hex_decode (a ∷ []) b h = absurd (ground arith)
length-hex_decode (a ∷ c ∷ s) b h = go (length-hex_decode s) (hex_decode s) refl
  where
    go :
        ((t : Bytes) → hex_decode s ≡ some t → length s ≡ length t + length t)
        → (o : Option Bytes) → hex_decode s ≡ o
        → length (a ∷ c ∷ s) ≡ length b + length b
    go later none e = absurd (ground arith)
    go later (some t) e = ground (arith, later t e)

-- An infohash is read alike in both cases of its letters, and from 40 characters only.
pub hash_from_hex_lem :
    (s b : Bytes)
    → hash_from_hex s ≡ ok b
    → (length s ≡ 40) × (length b ≡ 20) × (hash_from_hex (to_lower s) ≡ ok b)
unfolding hash_from_hex
hash_from_hex_lem s b h = go (hex_decode s) refl
  where
    go :
        (o : Option Bytes)
        → hex_decode s ≡ o
        → (length s ≡ 40) × (length b ≡ 20) × (hash_from_hex (to_lower s) ≡ ok b)
    go none e = absurd (ground arith)
    go (some t) e =
        let n = length-hex_decode s t e in
        let low = hex_decode-to_lower s in (ground arith, ground arith, ground arith)
