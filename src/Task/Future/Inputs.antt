-- ===== src/Task/Future/Inputs.antt =====
-- What a task that depends on three futures finds in its block.
use mathlib.Core.List.{append_assoc, append-nil}
use hpx_mp.Base.{
  ℕ, zero, suc, ◌+◌, ◌-◌, ◌≤◌, ◌<◌, ◌≡◌, ◌≢◌, refl, sym, ◌∙◌, ap, ◌⊎◌, inl, inr, none, some, List,
  [], ◌∷◌, ◌++◌, arith, length, length-append, length-set, get_elem?, get_elem?-set_self,
  get_elem?-set_ne, set, dec_lt, ℕ_discrete, update, update_self, update_ne, leb, true, false,
}
use hpx_mp.Task.Future.{Heap, RawData, KmpTask, take, paste, memcpy, inputs3}

abbrev pub drop : ℕ → List ℕ → List ℕ
drop zero l = l
drop (suc n) [] = []
drop (suc n) (b ∷ bs) = drop n bs

take-length : (l : List ℕ) → take (length l) l ≡ l
take-length [] = refl
take-length (b ∷ bs) = ap (λ l. b ∷ l) (take-length bs)

paste-cons :
    (a : ℕ) (l : List ℕ) (k : ℕ) (bs : List ℕ) → paste (a ∷ l) (suc k) bs ≡ a ∷ paste l k bs
paste-cons a l k [] = refl
paste-cons a l k (b ∷ bs) = paste-cons a (set l k b) (suc k) bs

paste-front : (l bs : List ℕ) → length bs ≤ length l → paste l 0 bs ≡ bs ++ drop (length bs) l
paste-front l [] h = refl
paste-front [] (b ∷ bs) h = elim h [ ]
paste-front (a ∷ l) (b ∷ bs) h =
    paste-cons b l 0 bs ∙ ap (λ r. b ∷ r) (paste-front l bs (omega arith))

-- Behind a list, the bytes are written over what follows it.
paste-append :
    (xs l bs : List ℕ)
    → length bs ≤ length l
    → paste (xs ++ l) (length xs) bs ≡ xs ++ (bs ++ drop (length bs) l)
paste-append [] l bs h = paste-front l bs h
paste-append (x ∷ xs) l bs h =
    paste-cons x (xs ++ l) (length xs) bs ∙ ap (λ r. x ∷ r) (paste-append xs l bs h)

drop-all : (n : ℕ) (l : List ℕ) → length l ≤ n → drop n l ≡ []
drop-all zero [] h = refl
drop-all zero (b ∷ bs) h = elim h [ ]
drop-all (suc n) [] h = refl
drop-all (suc n) (b ∷ bs) h = drop-all n bs (omega arith)

length-drop : (n : ℕ) (l : List ℕ) → length (drop n l) ≡ length l - n
length-drop zero l = omega arith
length-drop (suc n) [] = omega arith
length-drop (suc n) (b ∷ bs) = omega (arith, length-drop n bs)

length-paste : (l : List ℕ) (k : ℕ) (bs : List ℕ) → length (paste l k bs) ≡ length l
length-paste l k [] = refl
length-paste l k (b ∷ bs) = length-paste (set l k b) (suc k) bs ∙ length-set l k b

paste-before :
    (l : List ℕ) (k : ℕ) (bs : List ℕ) (i : ℕ) → i < k → get_elem? (paste l k bs) i ≡ get_elem? l i
paste-before l k [] i h = refl
paste-before l k (b ∷ bs) i h =
    paste-before (set l k b) (suc k) bs i (omega arith)
    ∙ get_elem?-set_ne l k i b (λ e. omega (arith, e))

get_elem?-paste :
    (l : List ℕ) (k : ℕ) (bs : List ℕ) (j : ℕ)
    → j < length bs
    → k + length bs ≤ length l
    → get_elem? (paste l k bs) (k + j) ≡ get_elem? bs j
get_elem?-paste l k [] j h fits = elim h [ ]
get_elem?-paste l k (b ∷ bs) zero h fits =
    ap (get_elem? (paste (set l k b) (suc k) bs)) (omega arith)
    ∙ paste-before (set l k b) (suc k) bs k (omega arith)
    ∙ get_elem?-set_self l k b (omega arith)
get_elem?-paste l k (b ∷ bs) (suc j) h fits =
    ap (get_elem? (paste (set l k b) (suc k) bs)) (omega arith)
    ∙ get_elem?-paste (set l k b) (suc k) bs j (omega arith) (omega (arith, length-set l k b))

module _ (block offset : ℕ) (arg : RawData) (h : Heap) (to from : List ℕ)
    (there : h block ≡ some to) (here : h arg.block ≡ some from)
    (size : arg.size ≡ length from) where
  pub memcpy-some :
      offset + length from ≤ length to
      → memcpy block offset arg h ≡ some (update h block (some (paste to offset from)))
  unfolding memcpy
  memcpy-some fits =
      let inside : leb (offset + length from) (length to) ≡ true = ground arith in
      let all : leb (length from) (length from) ≡ true = ground arith in
      rw there (rw here (rw size (rw inside (rw all (rw (take-length from) refl)))))

  pub memcpy-none : length to < offset + length from → memcpy block offset arg h ≡ none
  unfolding memcpy
  memcpy-none out =
      let outside : leb (offset + length from) (length to) ≡ false = ground arith in
      rw there (rw here (rw size (rw outside refl)))

-- The block of a task has room for the data of the three arguments and no more, and these are in
-- other blocks.
pub record Layout3 (task : KmpTask) (a1 a2 a3 : RawData) (d1 d2 d3 l : List ℕ) (h : Heap)
    : Type 0 where
  pub own : h task.block ≡ some l
  pub whole : length l ≡ length d1 + length d2 + length d3
  pub first : h a1.block ≡ some d1
  pub second : h a2.block ≡ some d2
  pub third : h a3.block ≡ some d3
  pub apart : (task.block ≢ a1.block) × (task.block ≢ a2.block) × (task.block ≢ a3.block)
  pub sizes : (a1.size ≡ length d1) × (a2.size ≡ length d2) × (a3.size ≡ length d3)

module _ {task : KmpTask} {a1 a2 a3 : RawData} {d1 d2 d3 l : List ℕ} {h : Heap}
    (w : Layout3 task a1 a2 a3 d1 d2 d3 l h) where
  abbrev two_in : List ℕ
  two_in = paste (paste l 0 d1) (length d1) d2

  abbrev with_two : Heap
  with_two = update (update h task.block (some (paste l 0 d1))) task.block (some two_in)

  length-two_in : length two_in ≡ length l
  length-two_in = length-paste (paste l 0 d1) (length d1) d2 ∙ length-paste l 0 d1

  first_two : inputs3 task a1 a2 a3 h ≡ memcpy task.block (a1.size + a3.size) a3 with_two
  unfolding inputs3
  first_two =
      let h1 = update h task.block (some (paste l 0 d1)) in
      let one =
        memcpy-some task.block 0 a1 h l d1 w.own w.first w.sizes.0 (omega (arith, w.whole)) in
      let two : memcpy task.block a1.size a2 h1 ≡ some with_two =
        ap (λ k. memcpy task.block k a2 h1) w.sizes.0
        ∙ memcpy-some task.block (length d1) a2 h1 (paste l 0 d1) d2
            (update_self h task.block (some (paste l 0 d1)))
            (update_ne h task.block a2.block (some (paste l 0 d1)) w.apart.1 ∙ w.second) w.sizes.1
            (omega (arith, w.whole, length-paste l 0 d1)) in
      rw one (rw two refl)

  third_there : with_two a3.block ≡ some d3
  third_there =
      update_ne (update h task.block (some (paste l 0 d1))) task.block a3.block (some two_in)
        w.apart.2
      ∙ update_ne h task.block a3.block (some (paste l 0 d1)) w.apart.2
      ∙ w.third

  own_there : with_two task.block ≡ some two_in
  own_there = update_self (update h task.block (some (paste l 0 d1))) task.block (some two_in)

  too_long : length d2 < length d3 → inputs3 task a1 a2 a3 h ≡ none
  too_long long =
      first_two
      ∙ memcpy-none task.block (a1.size + a3.size) a3 with_two two_in d3 own_there third_there
          w.sizes.2 (omega (arith, w.whole, w.sizes.0, w.sizes.2, length-two_in))

  goes_in :
      length d3 ≤ length d2
      → inputs3 task a1 a2 a3 h
        ≡ some (update with_two task.block (some (paste two_in (a1.size + a3.size) d3)))
  goes_in short =
      first_two
      ∙ memcpy-some task.block (a1.size + a3.size) a3 with_two two_in d3 own_there third_there
          w.sizes.2 (omega (arith, w.whole, w.sizes.0, w.sizes.2, length-two_in))

  -- Where the second and the third argument have the same size, the three stand one after the other.
  all_in : length d2 ≡ length d3 → paste two_in (a1.size + a3.size) d3 ≡ d1 ++ (d2 ++ d3)
  all_in same =
      let rest = drop (length d2) (drop (length d1) l) in
      let fits : length rest ≡ length d3 =
        omega (
          arith,
          length-drop (length d2) (drop (length d1) l),
          length-drop (length d1) l,
          w.whole,
        ) in
      let two : two_in ≡ (d1 ++ d2) ++ rest =
        ap (λ r. paste r (length d1) d2) (paste-front l d1 (omega (arith, w.whole)))
        ∙ paste-append d1 (drop (length d1) l) d2
            (omega (arith, length-drop (length d1) l, w.whole))
        ∙ sym (append_assoc d1 d2 rest) in
      let at : a1.size + a3.size ≡ length (d1 ++ d2) =
        omega (arith, w.sizes.0, w.sizes.2, length-append d1 d2) in
      ap (λ (x : List ℕ × ℕ). paste x.0 x.1 d3) (λ t. (two t, at t))
      ∙ paste-append (d1 ++ d2) rest d3 (omega arith)
      ∙ ap (λ r. (d1 ++ d2) ++ (d3 ++ r)) (drop-all (length d3) rest (omega arith))
      ∙ ap (λ r. (d1 ++ d2) ++ r) (append-nil d3)
      ∙ append_assoc d1 d2 d3

  -- Where the block of a task has room for the data of three arguments and no more (`Layout3`):
  -- where the third one is longer than the second, copying them is undefined; where both have the same
  -- size, the task finds the three one after the other; and where the third one is shorter, its
  -- bytes stand where those of the second do, from the size of the third on.
  pub inputs3-copied :
      (j : ℕ)
      → j < length d3
      → ((length d2 < length d3) × (inputs3 task a1 a2 a3 h ≡ none))
        ⊎ ((length d3 ≤ length d2)
            × ((h' : Heap) × (bytes : List ℕ) × (inputs3 task a1 a2 a3 h ≡ some h')
                × (h' task.block ≡ some bytes)
                × ((length d2 ≢ length d3) ⊎ (bytes ≡ d1 ++ (d2 ++ d3)))
                × (get_elem? bytes (length d1 + (length d3 + j)) ≡ get_elem? d3 j)))
  inputs3-copied j lt = elim (dec_lt (length d2) (length d3)) [
    | yes long ↦ inl (long, too_long long)
    | no short ↦
        let bytes = paste two_in (a1.size + a3.size) d3 in
        inr (
          omega (arith, short),
          (
            update with_two task.block (some bytes),
            bytes,
            goes_in (omega (arith, short)),
            update_self with_two task.block (some bytes),
            elim (ℕ_discrete (length d2) (length d3)) [
              | yes same ↦ inr (all_in same)
              | no ne ↦ inl ne
            ],
            ap (get_elem? bytes) (omega (arith, w.sizes.0, w.sizes.2))
                ∙ get_elem?-paste two_in (a1.size + a3.size) d3 j lt
                    (omega (arith, short, w.whole, w.sizes.0, w.sizes.2, length-two_in)),
          ),
        )
  ]
