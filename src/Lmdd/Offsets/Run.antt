-- ===== src/Lmdd/Offsets/Run.antt =====
-- The offsets of a whole random copy of src/lmdd.c with `norepeat=`.
use mathlib.Core.Option
use qnx_lmbench_mods.Base.{
  ℕ, zero, suc, ◌<◌, ◌≡◌, ◌≢◌, sym, ap, ◌∙◌, subst, inl, inr, true, false, Option, none, some, List,
  [], ◌∷◌, Option-cases, arith,
}
use qnx_lmbench_mods.Base.Int.{ℤ, pos, negsuc, pos_part, ◌+ℤ◌, +ℤ_parts, eq_of_parts}
use qnx_lmbench_mods.Lmdd.Settings.{Settings}
use qnx_lmbench_mods.Lmdd.Offsets.{Choice, eq_ℤ, been_there, note, choose, is_random}
use qnx_lmbench_mods.Lmdd.Offsets.Fresh.{Chosen, choose-Chosen, been_from-false}

abbrev pub NotIn : ℕ → List ℕ → Type 0
NotIn x [] = Unit
NotIn x (y ∷ ys) = (x ≢ y) × NotIn x ys

abbrev pub Distinct : List ℕ → Type 0
Distinct [] = Unit
Distinct (x ∷ xs) = NotIn x xs × Distinct xs

-- The noted offset stands where `norepeats` was; all else is as before.
used-note_self : (off : ℕ) (c : Choice) → (note off c).used c.norepeats ≡ off
unfolding note
used-note_self off c = ground arith

used-note_ne :
    (off : ℕ) (c : Choice) (i : ℤ) → eq_ℤ i c.norepeats ≡ false → (note off c).used i ≡ c.used i
unfolding note
used-note_ne off c i h = ground arith

next_place : (n : ℕ) → pos n +ℤ pos 1 ≡ pos (suc n)
next_place n = eq_of_parts (pos n +ℤ pos 1) (pos (suc n)) (omega (arith, +ℤ_parts (pos n) (pos 1)))

first_place : negsuc 0 +ℤ pos 1 ≡ pos 0
first_place = eq_of_parts (negsuc 0 +ℤ pos 1) (pos 0) (omega (arith, +ℤ_parts (negsuc 0) (pos 1)))

-- The first offset of a copy is noted before the start of the table: at -1. The table stays as it was.
pub first_note_outside :
    (off : ℕ) (c : Choice) (i : ℕ)
    → c.norepeats ≡ negsuc 0
    → ((note off c).used (negsuc 0) ≡ off)
      × ((note off c).used (pos i) ≡ c.used (pos i))
      × ((note off c).norepeats ≡ pos 0)
unfolding note
first_note_outside off c i h = (
  subst (λ (n : ℤ). (note off c).used n ≡ off) h (used-note_self off c),
  used-note_ne off c (pos i) (rw h (ground arith)),
  ap (λ (n : ℤ). n +ℤ pos 1) h ∙ first_place,
)

after_first :
    (c : Choice) (off : ℕ) (after : Choice)
    → Chosen c off after
    → c.norepeats ≡ negsuc 0
    → after.norepeats ≡ pos 0
unfolding note
after_first c off after x p =
    ap (λ (d : Choice). d.norepeats) x.noted
    ∙ ap (λ (i : ℤ). i +ℤ pos 1) (x.place ∙ p)
    ∙ first_place

-- What an offset adds to a table of `n` of them.
module _ (c : Choice) (off : ℕ) (after : Choice) (n : ℕ) (x : Chosen c off after)
    (p : c.norepeats ≡ pos n) where
  place_is : x.before.norepeats ≡ pos n
  place_is = x.place ∙ p

  next_norepeats : after.norepeats ≡ pos (suc n)
  unfolding note
  next_norepeats =
      ap (λ (d : Choice). d.norepeats) x.noted ∙ ap (λ (i : ℤ). i +ℤ pos 1) place_is ∙ next_place n

  newest : after.used (pos n) ≡ off
  newest =
      ap (λ (d : Choice). d.used (pos n)) x.noted
      ∙ subst (λ (i : ℤ). (note off x.before).used i ≡ off) place_is (used-note_self off x.before)

  older : (j : ℕ) → j < n → after.used (pos j) ≡ c.used (pos j)
  older j h =
      let other : eq_ℤ (pos j) x.before.norepeats ≡ false =
        subst (λ (i : ℤ). eq_ℤ (pos j) i ≡ false) (sym place_is) (ground arith) in
      ap (λ (d : Choice). d.used (pos j)) x.noted
      ∙ used-note_ne off x.before (pos j) other
      ∙ ap (λ (u : ℤ → ℕ). u (pos j)) x.table

  unused : (j : ℕ) → j < n → off ≢ c.used (pos j)
  unfolding been_there
  unused j h =
      let rounds : pos_part (x.before.norepeats +ℤ pos 1) ≡ suc n =
        ap (λ (i : ℤ). pos_part (i +ℤ pos 1)) place_is ∙ ap pos_part (next_place n) in
      subst (λ (u : ℤ → ℕ). off ≢ u (pos j)) x.table
        (been_from-false (pos_part (x.before.norepeats +ℤ pos 1)) 0 off x.before.used j x.fresh
          (omega arith) (omega (arith, rounds)))

module _ (draw : ℕ → ℕ → ℕ) (s : Settings) where
  -- The offsets of `k` blocks, one after the other.
  unfoldable pub choices : (fuel k last : ℕ) → Choice → Option (List ℕ)
  choices fuel zero last c = some []
  choices fuel (suc k) last c = elim (choose draw s fuel last c) [
    | none ↦ none
    | some (off, c') ↦ Option.map (λ offs. off ∷ offs) (choices fuel k off c')
  ]

  module _ (norepeat : s.norepeat ≡ true) (counted : s.gotcnt ≡ true)
      (random : is_random draw s ≡ true) where
    choices-Distinct :
        (fuel k last n : ℕ) (c : Choice) (offs : List ℕ)
        → c.norepeats ≡ pos n
        → choices fuel k last c ≡ some offs
        → Distinct offs × ((j : ℕ) → j < n → NotIn (c.used (pos j)) offs)
    unfolding choices
    choices-Distinct fuel zero last n c offs p h =
        let none_made : [] ≡ offs = cc in rw (← none_made) (tt, λ j _. tt)
    choices-Distinct fuel (suc k) last n c offs p h =
        elim (Option-cases (choose draw s fuel last c)) [
          | inl e ↦ cc (rw (e, choices) at h)
          | inr ((off, c'), e) ↦
              let h' : Option.map (λ offs. off ∷ offs) (choices fuel k off c') ≡ some offs =
                rw (e, choices) at h in
              elim (Option-cases (choices fuel k off c')) [
                | inl e' ↦ cc (rw e' at h')
                | inr (rest, e') ↦
                    let x = choose-Chosen draw s norepeat counted fuel last c off c' random e in
                    let (distinct, fresh) =
                      choices-Distinct fuel k off (suc n) c' rest (next_norepeats c off c' n x p)
                        e' in
                    let joined : ◌≡◌ {A = Option (List ℕ)} (some (off ∷ rest)) (some offs) =
                      rw e' at h' in
                    let all : off ∷ rest ≡ offs = cc in
                    rw (← all) (
                      (
                        subst (λ (v : ℕ). NotIn v rest) (newest c off c' n x p)
                            (fresh n (omega arith)),
                        distinct,
                      ),
                      λ j m. (
                        λ (q : c.used (pos j) ≡ off). unused c off c' n x p j m (sym q),
                        subst (λ (v : ℕ). NotIn v rest) (older c off c' n x p j m)
                            (fresh j (omega arith)),
                      ),
                    )
              ]
        ]

    -- A random copy with a count and `norepeat=` uses no offset twice, but for the first one, which is
    -- not looked for in the table.
    pub no_repeats :
        (fuel k last first : ℕ) (c : Choice) (offs : List ℕ)
        → c.norepeats ≡ negsuc 0
        → choices fuel (suc k) last c ≡ some (first ∷ offs)
        → Distinct offs
    unfolding choices
    no_repeats fuel k last first c offs p h = elim (Option-cases (choose draw s fuel last c)) [
      | inl e ↦ cc (rw (e, choices) at h)
      | inr ((off, c'), e) ↦
          let h' : Option.map (λ offs. off ∷ offs) (choices fuel k off c') ≡ some (first ∷ offs) =
            rw (e, choices) at h in
          elim (Option-cases (choices fuel k off c')) [
            | inl e' ↦ cc (rw e' at h')
            | inr (rest, e') ↦
                let x = choose-Chosen draw s norepeat counted fuel last c off c' random e in
                let joined : ◌≡◌ {A = Option (List ℕ)} (some (off ∷ rest)) (some (first ∷ offs)) =
                  rw e' at h' in
                let rest_is : rest ≡ offs = cc in
                subst Distinct rest_is
                  (choices-Distinct fuel k off 0 c' rest (after_first c off c' x p) e').0
          ]
    ]
