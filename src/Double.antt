-- ===== src/Double.antt =====
-- The C type `double`, which the timing and statistics code computes with. The hardware implements
-- it, so its values and operations are a parameter, with the laws that a module relies on beside.
pub mod Whole
use qnx_lmbench_mods.Base.{ℕ, ◌<◌, ◌≡◌, Bool, true, false}

-- The operations of `double` that the sources use. `lit a b` is the constant a / b.
pub record Double : Type 1 where
  pub D : Type 0
  pub of_u64 : ℕ → D
  pub lit : ℕ → ℕ → D
  pub add : D → D → D
  pub sub : D → D → D
  pub mul : D → D → D
  pub div : D → D → D
  pub less : D → D → Bool
  pub less_eq : D → D → Bool
  pub to_u64 : D → ℕ

module _ (d : Double) where
  -- `a > b`
  abbrev pub gt : d.D → d.D → Bool
  gt a b = d.less b a

  -- `u/(double)n > v/(double)m`
  abbrev pub ratio_gt : ℕ → ℕ → ℕ → ℕ → Bool
  ratio_gt u n v m = gt (d.div (d.of_u64 u) (d.of_u64 n)) (d.div (d.of_u64 v) (d.of_u64 m))

  -- Quotients of a positive number are no NaN, and `>` orders all other values of `double`.
  pub record RatioOrder : Type 0 where
    pub asym : (u n v m : ℕ) → 0 < u → 0 < v → ratio_gt u n v m ≡ true → ratio_gt v m u n ≡ false
    pub trans :
        (u n v m w k : ℕ)
        → 0 < u
        → 0 < v
        → 0 < w
        → ratio_gt u n v m ≡ false
        → ratio_gt v m w k ≡ false
        → ratio_gt u n w k ≡ false
