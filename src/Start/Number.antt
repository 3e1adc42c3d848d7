-- ===== src/Start/Number.antt =====
-- `atoi`, of the C library.
use Prim.Native.Char.{code}
use Prim.Native.String.{String}
use hpx_mp.Base.{
  ℕ, zero, suc, ◌+◌, ◌-◌, ◌*◌, ◌^◌, ◌<◌, ◌≡◌, refl, ◌∙◌, ap, Bool, false, Option, none, some, List,
  [], ◌∷◌, map, All, arith, leb, ltb, ◌==◌, ◌&&◌, ◌||◌, if◌then◌else◌,
}
use hpx_mp.Base.Int.{ℤ, pos, negsuc}

-- The code points of a text.
abbrev pub codes : String → List ℕ
codes String.[] = []
codes (String.◌∷◌ c s) = code c ∷ codes s

abbrev pub is_digit : ℕ → Bool
is_digit c = leb b'0' c && leb c b'9'

abbrev is_space : ℕ → Bool
is_space c = (c == 32) || leb 9 c && leb c 13

-- The digits behind a number, up to the first character that is none.
abbrev pub scan : ℕ → List ℕ → ℕ
scan n [] = n
scan n (c ∷ s) = let more = scan (n * 10 + (c - b'0')) s in if is_digit c then more else n

abbrev in_int : ℕ → Option ℤ
in_int n = if ltb n (2 ^ 31) then some (pos n) else none

abbrev negative_in_int : ℕ → Option ℤ
negative_in_int zero = some (pos 0)
negative_in_int (suc n) = if ltb n (2 ^ 31) then some (negsuc n) else none

abbrev signed : List ℕ → Option ℤ
signed [] = some (pos 0)
signed (c ∷ s) =
    if c == b'-'
    then negative_in_int (scan 0 s)
    else if c == b'+'
    then in_int (scan 0 s)
    else in_int (scan 0 (c ∷ s))

-- A value that is no `int` is undefined.
unfoldable pub atoi : List ℕ → Option ℤ
atoi [] = some (pos 0)
atoi (c ∷ s) = let more = atoi s in if is_space c then more else signed (c ∷ s)

-- The number with these digits, the first one of most weight.
abbrev pub decimal : ℕ → List ℕ → ℕ
decimal n [] = n
decimal n (d ∷ ds) = decimal (n * 10 + d) ds

abbrev pub digits_text : List ℕ → List ℕ
digits_text ds = map (λ d. b'0' + d) ds

scan-decimal : (ds : List ℕ) (n : ℕ) → All (λ d. d < 10) ds → scan n (digits_text ds) ≡ decimal n ds
scan-decimal [] n h = refl
scan-decimal (d ∷ ds) n (lt, h) = ground (arith, scan-decimal ds (n * 10 + d) h)

pub atoi-decimal :
    (ds : List ℕ)
    → All (λ d. d < 10) ds
    → decimal 0 ds < 2 ^ 31
    → atoi (digits_text ds) ≡ some (pos (decimal 0 ds))
unfolding atoi
atoi-decimal [] h lt = refl
atoi-decimal (d ∷ ds) (small, h) lt =
    let no_space : is_space (b'0' + d) ≡ false = ground arith in
    let no_minus : (b'0' + d == b'-') ≡ false = ground arith in
    let no_plus : (b'0' + d == b'+') ≡ false = ground arith in
    rw (no_space, no_minus, no_plus)
      (ap in_int (scan-decimal (d ∷ ds) 0 (small, h)) ∙ ground (arith, lt))

spaces_and_sign :
    (atoi (codes "  12 threads") ≡ some (pos 12)) × (atoi (codes "-3") ≡ some (negsuc 2))
unfolding atoi
spaces_and_sign = (refl, refl)
