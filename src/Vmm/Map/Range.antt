-- ===== src/Vmm/Map/Range.antt =====
-- A range of pages as one page and the rest of the range.
use testcode.Base.{
  ℕ, suc, ◌+◌, ◌-◌, ◌*◌, ◌≡◌, refl, inl, inr, Bool, true, false, ◌&&◌, arith, if◌then◌else◌, ◌==◌,
  ltb, leb, Bool-cases, ==_iff, leb→le,
}

-- One page, then `k` more, are `suc k` pages; `g` gives the entry of a physical page, `x` is the
-- page asked for, and `f` the first page.
pub mapped_step :
    (g : ℕ → ℕ) (b : Bool) (x f k pa old : ℕ)
    → (if b && (leb (f + 1) x && ltb x (f + 1 + k))
        then g (pa + 4096 + (x - (f + 1)) * 4096)
        else if b && x == f
        then g pa
        else old)
      ≡ (if b && (leb f x && ltb x (f + suc k)) then g (pa + (x - f) * 4096) else old)
mapped_step g false x f k pa old = refl
mapped_step g true x f k pa old = elim (Bool-cases (x == f)) [
  | inl e ↦
      let same : x ≡ f = (==_iff x f).0 e in
      let here : pa + (x - f) * 4096 ≡ pa = omega arith in rw here (ground arith)
  | inr e ↦ elim (Bool-cases (leb (f + 1) x)) [
    | inl above ↦
        let there : pa + (x - f) * 4096 ≡ pa + 4096 + (x - (f + 1)) * 4096 =
          omega (arith, leb→le (f + 1) x above) in
        rw there (ground arith)
    | inr below ↦ ground arith
  ]
]

pub mapped_none :
    (g : ℕ → ℕ) (b : Bool) (x f pa old : ℕ)
    → old ≡ (if b && (leb f x && ltb x (f + 0)) then g (pa + (x - f) * 4096) else old)
mapped_none g b x f pa old = ground arith
