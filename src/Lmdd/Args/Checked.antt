-- ===== src/Lmdd/Args/Checked.antt =====
-- Which arguments `chkarg` of src/lmdd.c lets pass.
use qnx_lmbench_mods.Base.{
  ℕ, ◌-◌, ◌≡◌, refl, ap, subst, ◌⊎◌, inl, inr, ◌↔◌, true, false, Option, some, List, [], ◌∷◌, ◌++◌,
  ◌==◌, Bool-cases, ==_iff, arith,
}
use qnx_lmbench_mods.Clock.{u64}
use qnx_lmbench_mods.Lmdd.Args.{Str, codes, cmds, common, at_equals, chkarg_in, chkarg, getarg}
use qnx_lmbench_mods.Lmdd.Args.Laws.{IsName, write_setting, same, value_of, same-longer, getarg_lem}

-- `arg` is a start of the command `c`, with `=` and any text behind it.
pub record Abbreviates (arg c : Str) : Type 0 where
  pub name : Str
  pub omitted : Str
  pub text : Str
  pub command : c ≡ name ++ omitted
  pub argument : arg ≡ name ++ b'=' ∷ text

abbrev pub AbbreviatesOne : Str → List Str → Type 0
AbbreviatesOne arg [] = ⊥
AbbreviatesOne arg (c ∷ cs) = Abbreviates arg c ⊎ AbbreviatesOne arg cs

abbrev AllNames : List Str → Type 0
AllNames [] = Unit
AllNames (c ∷ cs) = IsName c × AllNames cs

common-cons : {x : ℕ} {arg c : Str} → Abbreviates arg c → Abbreviates (x ∷ arg) (x ∷ c)
common-cons {x} a = record {
  name = x ∷ a.name;
  omitted = a.omitted;
  text = a.text;
  command = ap (λ (s : Str). x ∷ s) a.command;
  argument = ap (λ (s : Str). x ∷ s) a.argument;
}

Abbreviates-common : (arg c : Str) → at_equals (common arg c) ≡ true → Abbreviates arg c
unfolding at_equals common
Abbreviates-common [] c h = cc
Abbreviates-common (x ∷ arg) [] h = record {
  name = [];
  omitted = [];
  text = arg;
  command = refl;
  argument = ap (λ (y : ℕ). y ∷ arg) ((==_iff x b'=').0 h);
}
Abbreviates-common (x ∷ arg) (y ∷ c) h = elim (Bool-cases (x == y)) [
  | inl e ↦
      subst (λ (z : ℕ). Abbreviates (x ∷ arg) (z ∷ c)) ((==_iff x y).0 e)
        (common-cons (Abbreviates-common arg c (rw e at h)))
  | inr e ↦ record {
    name = [];
    omitted = y ∷ c;
    text = arg;
    command = refl;
    argument = ap (λ (z : ℕ). z ∷ arg) ((==_iff x b'=').0 (rw e at h));
  }
]

common-Abbreviates :
    (name omitted text : Str)
    → IsName (name ++ omitted)
    → at_equals (common (name ++ b'=' ∷ text) (name ++ omitted)) ≡ true
unfolding at_equals common
common-Abbreviates [] [] text n = refl
common-Abbreviates [] (y ∷ omitted) text n = ground (arith, n.0)
common-Abbreviates (x ∷ name) omitted text n =
    let e : (x == x) ≡ true = ground arith in rw e (common-Abbreviates name omitted text n.1)

Abbreviates-at_equals :
    {arg c : Str} → Abbreviates arg c → IsName c → at_equals (common arg c) ≡ true
Abbreviates-at_equals {arg} {c} a n =
    let fits = common-Abbreviates a.name a.omitted a.text (subst IsName a.command n) in
    rw (a.argument, a.command) fits

chkarg_in_lem :
    (cs : List Str) (arg : Str) → AllNames cs → (chkarg_in cs arg ≡ true) ↔ AbbreviatesOne arg cs
unfolding chkarg_in
chkarg_in_lem [] arg n = (λ h. cc, λ a. absurd a)
chkarg_in_lem (c ∷ cs) arg n =
    let later = chkarg_in_lem cs arg n.1 in
    elim (Bool-cases (at_equals (common arg c))) [
      | inl e ↦ (λ _. inl (Abbreviates-common arg c e), λ _. rw e refl)
      | inr e ↦ (
        λ h. inr (later.0 (rw e at h)),
        λ a. elim a [ inl a ↦ rw (Abbreviates-at_equals a n.0) refl | inr a ↦ rw e (later.1 a) ],
      )
    ]

cmds-AllNames : AllNames cmds
unfolding cmds
cmds-AllNames = omega arith

-- An argument passes `chkarg` exactly if it is the start of a command, however short, with `=` and any
-- text behind it.
pub chkarg_lem : (arg : Str) → (chkarg arg ≡ true) ↔ AbbreviatesOne arg cmds
unfolding chkarg
chkarg_lem arg = chkarg_in_lem cmds arg cmds-AllNames

IsName-prefix : (s t : Str) → IsName (s ++ t) → IsName s
IsName-prefix [] t n = tt
IsName-prefix (c ∷ s) t n = (n.0, IsName-prefix s t n.1)

-- An argument whose name is a command cut short passes `chkarg`, but `getarg` does not find it when it
-- is asked for the command: the setting is ignored without a message.
pub abbreviation_ignored :
    (scan : Str → Option ℕ) (address : ℕ → ℕ) (program name omitted text : Str) (c : ℕ)
    → IsName (name ++ c ∷ omitted)
    → same (name ++ c ∷ omitted) (codes "label") ≡ false
    → AbbreviatesOne (write_setting (name, text)) cmds
    → (chkarg (write_setting (name, text)) ≡ true)
      × (getarg scan address
            ((name ++ c ∷ omitted) ++ b'=' ∷ [])
            (program ∷ write_setting (name, text) ∷ [])
          ≡ some (u64 - 1))
unfolding value_of
abbreviation_ignored scan address program name omitted text c n l a =
    let rule =
      getarg_lem scan address (name ++ c ∷ omitted) program ((name, text) ∷ []) n
        (IsName-prefix name (c ∷ omitted) n, tt) l in
    ((chkarg_lem (write_setting (name, text))).1 a, rw (same-longer name c omitted) at rule)
