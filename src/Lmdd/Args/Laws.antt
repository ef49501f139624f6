-- ===== src/Lmdd/Args/Laws.antt =====
-- What `getarg` of src/lmdd.c reads from arguments that are written as settings.
use qnx_lmbench_mods.Base.{
  ℕ, ◌+◌, ◌-◌, ◌≡◌, ◌≢◌, refl, ap, subst, Bool, true, false, Option, none, some, List, [], ◌∷◌,
  ◌++◌, map, length, drop, ◌==◌, if◌then◌else◌, inl, inr, Bool-cases, arith,
}
use qnx_lmbench_mods.Clock.{u64}
use qnx_lmbench_mods.Sizes.{bytes}
use qnx_lmbench_mods.Lmdd.Args.{Str, codes, starts_with, getarg_from, getarg}

-- A name: a text without `=`.
abbrev pub IsName : Str → Type 0
IsName [] = Unit
IsName (c ∷ s) = (c ≢ b'=') × IsName s

abbrev pub AreNames : List (Str × Str) → Type 0
AreNames [] = Unit
AreNames ((name, text) ∷ settings) = IsName name × AreNames settings

-- `name=text`
abbrev pub write_setting : Str × Str → Str
write_setting (name, text) = name ++ b'=' ∷ text

unfoldable pub same : Str → Str → Bool
same [] [] = true
same [] (y ∷ t) = false
same (x ∷ s) [] = false
same (x ∷ s) (y ∷ t) = if x == y then same s t else false

-- The text of the first setting of that name.
unfoldable pub value_of : Str → List (Str × Str) → Option Str
value_of name [] = none
value_of name ((key, text) ∷ settings) = if same key name then some text else value_of name settings

pub starts_with-write_setting :
    (key name text : Str)
    → IsName key
    → IsName name
    → starts_with (key ++ b'=' ∷ text) (name ++ b'=' ∷ []) ≡ same key name
unfolding starts_with same
starts_with-write_setting [] [] text k n = refl
starts_with-write_setting [] (y ∷ name) text k n = ground (arith, n.0)
starts_with-write_setting (x ∷ key) [] text k n = ground (arith, k.0)
starts_with-write_setting (x ∷ key) (y ∷ name) text k n =
    rw (starts_with-write_setting key name text k.1 n.1)

same-eq : (s t : Str) → same s t ≡ true → s ≡ t
unfolding same
same-eq [] [] h = refl
same-eq [] (y ∷ t) h = cc
same-eq (x ∷ s) [] h = cc
same-eq (x ∷ s) (y ∷ t) h = elim (Bool-cases (x == y)) [
  | inl e ↦ ground (arith, same-eq s t)
  | inr e ↦ ground arith
]

pub same-longer : (s : Str) (c : ℕ) (t : Str) → same s (s ++ c ∷ t) ≡ false
unfolding same
same-longer [] c t = refl
same-longer (x ∷ s) c t = let e : (x == x) ≡ true = ground arith in rw e (same-longer s c t)

drop-write_setting : (key text : Str) → drop (length (key ++ b'=' ∷ [])) (key ++ b'=' ∷ text) ≡ text
drop-write_setting [] text = refl
drop-write_setting (x ∷ key) text = drop-write_setting key text

module _ (scan : Str → Option ℕ) (address : ℕ → ℕ) where
  -- What `bytes` makes of the text behind `name=`, and -1 where there is no such setting.
  abbrev pub setting : Option Str → Option ℕ
  setting none = some (u64 - 1)
  setting (some text) = bytes scan text

  getarg_from_lem :
      (i : ℕ) (name : Str) (settings : List (Str × Str))
      → IsName name
      → AreNames settings
      → same name (codes "label") ≡ false
      → getarg_from scan address i (name ++ b'=' ∷ []) (map write_setting settings)
        ≡ setting (value_of name settings)
  unfolding getarg_from value_of
  getarg_from_lem i name [] n s l = refl
  getarg_from_lem i name ((key, text) ∷ settings) n s l =
      let start = starts_with-write_setting key name text s.0 n in
      elim (Bool-cases (same key name)) [
        | inl e ↦
            let other = starts_with-write_setting key (codes "label") text s.0 (omega arith) in
            let key_is = same-eq key name e in
            let not_label = rw (← key_is) at l in
            rw (start, e, other, not_label)
              (ap (bytes scan) (
                subst (λ (s : Str). drop (length (s ++ b'=' ∷ [])) (key ++ b'=' ∷ text) ≡ text)
                  key_is (drop-write_setting key text)))
        | inr e ↦ rw (start, e) (getarg_from_lem (i + 1) name settings n s.1 l)
      ]

  -- Of arguments that are written as settings, `getarg` reads the first one of the name asked for,
  -- as a size, and -1 if there is none; `label` apart, for which it returns an address.
  pub getarg_lem :
      (name program : Str) (settings : List (Str × Str))
      → IsName name
      → AreNames settings
      → same name (codes "label") ≡ false
      → getarg scan address (name ++ b'=' ∷ []) (program ∷ map write_setting settings)
        ≡ setting (value_of name settings)
  unfolding getarg
  getarg_lem name program settings n s l = getarg_from_lem 1 name settings n s l
