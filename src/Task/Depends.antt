-- ===== src/Task/Depends.antt =====
-- The dependences of `hpx_runtime::create_df_task` (src/hpx_runtime.cpp): which earlier tasks a task
-- waits for. A task's future is a number; `inp` is the flag `in`, which the code does not read.
use mathlib.Core.Option.{some-injective}
use hpx_mp.Base.{
  ℕ, ◌≡◌, refl, ◌∙◌, ap, subst, fun_ext, ◌⊎◌, inl, inr, ◌↔◌, Bool, true, false, Option, none, some,
  List, [], ◌∷◌, ◌++◌, ◌==◌, ◌&&◌, ◌||◌, if◌then◌else◌, update,
}

pub record KmpDependInfo : Type 0 where
  pub base_addr : ℕ
  pub len : ℕ
  pub inp : Bool
  pub out : Bool

abbrev pub front : Option ℕ → List ℕ → List ℕ
front none ts = ts
front (some t) ts = t ∷ ts

-- The futures in the map for the addresses of a list.
unfoldable pub found_futures : (ℕ → Option ℕ) → List KmpDependInfo → List ℕ
found_futures df_map [] = []
found_futures df_map (d ∷ ds) = front (df_map d.base_addr) (found_futures df_map ds)

-- The new task takes the place of the addresses that it writes.
unfoldable pub enter_outs : ℕ → (ℕ → Option ℕ) → List KmpDependInfo → ℕ → Option ℕ
enter_outs new_task df_map [] = df_map
enter_outs new_task df_map (d ∷ ds) =
    enter_outs new_task (if d.out then update df_map d.base_addr (some new_task) else df_map) ds

pub record DfTask : Type 0 where
  pub new_task : ℕ
  pub dep_list : List KmpDependInfo
  pub noalias_dep_list : List KmpDependInfo

unfoldable pub dep_futures : (ℕ → Option ℕ) → DfTask → List ℕ
unfolding found_futures
dep_futures df_map c = found_futures df_map c.dep_list ++ found_futures df_map c.noalias_dep_list

-- The map after the tasks of a list, the latest first.
unfoldable pub df_map_after : List DfTask → ℕ → Option ℕ
unfolding enter_outs
df_map_after [] a = none
df_map_after (c ∷ cs) a =
    enter_outs c.new_task (enter_outs c.new_task (df_map_after cs) c.dep_list) c.noalias_dep_list a

abbrev pub writes : List KmpDependInfo → ℕ → Bool
writes [] a = false
writes (d ∷ ds) a = (d.out && d.base_addr == a) || writes ds a

-- The latest task that writes an address.
abbrev pub last_writer : List DfTask → ℕ → Option ℕ
last_writer [] a = none
last_writer (c ∷ cs) a =
    if writes c.dep_list a || writes c.noalias_dep_list a then some c.new_task else last_writer cs a

abbrev pub Among : {A : Type 0} → A → List A → Type 0
Among a [] = ⊥
Among a (x ∷ xs) = (x ≡ a) ⊎ Among a xs

merge :
    (o e w : Bool) (t : ℕ) (m u : ℕ → Option ℕ) (a : ℕ)
    → u a ≡ (if e then some t else m a)
    → (if w then some t else (if o then u else m) a) ≡ (if (o && e) || w then some t else m a)
merge true true true t m u a h = refl
merge true true false t m u a h = h
merge true false true t m u a h = refl
merge true false false t m u a h = h
merge false true true t m u a h = refl
merge false true false t m u a h = refl
merge false false true t m u a h = refl
merge false false false t m u a h = refl

enter_outs-writes :
    (t : ℕ) (m : ℕ → Option ℕ) (ds : List KmpDependInfo) (a : ℕ)
    → enter_outs t m ds a ≡ (if writes ds a then some t else m a)
unfolding enter_outs
enter_outs-writes t m [] a = refl
enter_outs-writes t m (d ∷ ds) a =
    enter_outs-writes t (if d.out then update m d.base_addr (some t) else m) ds a
    ∙ merge d.out (d.base_addr == a) (writes ds a) t m (update m d.base_addr (some t)) a refl

twice :
    (v w : Bool) (t : ℕ) (x : Option ℕ)
    → (if w then some t else if v then some t else x) ≡ (if v || w then some t else x)
twice true true t x = refl
twice true false t x = refl
twice false true t x = refl
twice false false t x = refl

df_map_after-last_writer : (cs : List DfTask) (a : ℕ) → df_map_after cs a ≡ last_writer cs a
unfolding df_map_after
df_map_after-last_writer [] a = refl
df_map_after-last_writer (c ∷ cs) a =
    enter_outs-writes c.new_task (enter_outs c.new_task (df_map_after cs) c.dep_list)
      c.noalias_dep_list a
    ∙ ap (λ x. if writes c.noalias_dep_list a then some c.new_task else x)
        (enter_outs-writes c.new_task (df_map_after cs) c.dep_list a
          ∙ ap (λ x. if writes c.dep_list a then some c.new_task else x)
              (df_map_after-last_writer cs a))
    ∙ twice (writes c.dep_list a) (writes c.noalias_dep_list a) c.new_task (last_writer cs a)

-- A list of dependences names an address that holds `t`.
abbrev pub Names : (ℕ → Option ℕ) → List KmpDependInfo → ℕ → Type 0
Names m [] t = ⊥
Names m (d ∷ ds) t = (m d.base_addr ≡ some t) ⊎ Names m ds t

Among-append : (t : ℕ) (xs ys : List ℕ) → Among t (xs ++ ys) ↔ (Among t xs ⊎ Among t ys)
Among-append t [] ys = (λ h. inr h, λ h. elim h [ inl n ↦ absurd n | inr y ↦ y ])
Among-append t (x ∷ xs) ys = (
  λ h. elim h [
    | inl e ↦ inl (inl e)
    | inr more ↦ elim ((Among-append t xs ys).0 more) [ inl l ↦ inl (inr l) | inr r ↦ inr r ]
  ],
  λ h. elim h [
    | inl l ↦ elim l [ inl e ↦ inl e | inr more ↦ inr ((Among-append t xs ys).1 (inl more)) ]
    | inr r ↦ inr ((Among-append t xs ys).1 (inr r))
  ],
)

front-Among :
    (o : Option ℕ) (ts : List ℕ) (t : ℕ) (N : Type 0)
    → Among t ts ↔ N
    → Among t (front o ts) ↔ ((o ≡ some t) ⊎ N)
front-Among none ts t N h = (λ a. inr (h.0 a), λ b. elim b [ inl e ↦ cc | inr n ↦ h.1 n ])
front-Among (some u) ts t N h = (
  λ a. elim a [ inl e ↦ inl (ap some e) | inr more ↦ inr (h.0 more) ],
  λ b. elim b [ inl e ↦ inl (some-injective _ _ e) | inr n ↦ inr (h.1 n) ],
)

found_futures-Names :
    (m : ℕ → Option ℕ) (ds : List KmpDependInfo) (t : ℕ)
    → Among t (found_futures m ds) ↔ Names m ds t
unfolding found_futures
found_futures-Names m [] t = (λ h. h, λ h. h)
found_futures-Names m (d ∷ ds) t =
    front-Among (m d.base_addr) (found_futures m ds) t (Names m ds t) (found_futures-Names m ds t)

-- A task with dependences waits for exactly the tasks that were, when it is created, the latest to
-- write an address of one of its two lists: for no task that only read the address.
pub dep_futures-last_writer :
    (cs : List DfTask) (c : DfTask) (t : ℕ)
    → Among t (dep_futures (df_map_after cs) c)
      ↔ (Names (last_writer cs) c.dep_list t ⊎ Names (last_writer cs) c.noalias_dep_list t)
unfolding dep_futures
dep_futures-last_writer cs c t =
    subst
      (λ m.
        Among t (dep_futures (df_map_after cs) c)
        ↔ (Names m c.dep_list t ⊎ Names m c.noalias_dep_list t))
      (fun_ext (df_map_after-last_writer cs)) (by_map (df_map_after cs))
  where
    by_map :
        (m : ℕ → Option ℕ)
        → Among t (dep_futures m c) ↔ (Names m c.dep_list t ⊎ Names m c.noalias_dep_list t)
    by_map m =
        let both =
          Among-append t (found_futures m c.dep_list) (found_futures m c.noalias_dep_list) in
        let one = found_futures-Names m c.dep_list t in
        let two = found_futures-Names m c.noalias_dep_list t in
        (
          λ a. elim (both.0 a) [ inl l ↦ inl (one.0 l) | inr r ↦ inr (two.0 r) ],
          λ b. elim b [ inl l ↦ both.1 (inl (one.1 l)) | inr r ↦ both.1 (inr (two.1 r)) ],
        )
