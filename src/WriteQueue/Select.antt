-- ===== src/WriteQueue/Select.antt =====
-- The order of src/write_queue.cc, and one way to choose the top of a queue by it.
use fuse_native.Base.{◌≡◌, ◌≤◌, ◌<◌, ◌⊎◌, inl, inr, refl, ap, true, false, arith}
use fuse_native.Base.Choice.{select, select-perm, select-IsTop}
use fuse_native.WriteQueue.{
  WriteOperation, WriteOperationPriority, urgent, high, normal, low, rank, compare_priority,
  Selection,
}

-- The negation of the comparison is transitive and total.
pub compare_priority_trans :
    (a b c : WriteOperation)
    → compare_priority a b ≡ false
    → compare_priority b c ≡ false
    → compare_priority a c ≡ false
unfolding compare_priority
compare_priority_trans a b c h k = ground arith

pub compare_priority_total :
    (a b : WriteOperation) → compare_priority a b ≡ true → compare_priority b a ≡ false
unfolding compare_priority
compare_priority_total a b h = ground arith

-- The higher priorities before the lower ones, as the enumeration's comments have them.
pub data Above : WriteOperationPriority → WriteOperationPriority → Type 0 where
  urgent_high : Above urgent high
  urgent_normal : Above urgent normal
  urgent_low : Above urgent low
  high_normal : Above high normal
  high_low : Above high low
  normal_low : Above normal low

-- `a` is of a higher priority, or of the same and not later.
abbrev pub MayPrecede : WriteOperation → WriteOperation → Type 0
MayPrecede a b =
    Above a.priority b.priority ⊎ ((a.priority ≡ b.priority) × (a.timestamp ≤ b.timestamp))

Above-cases : (p q : WriteOperationPriority) → Above p q ⊎ (p ≡ q) ⊎ Above q p
Above-cases urgent urgent = inr (inl refl)
Above-cases urgent high = inl urgent_high
Above-cases urgent normal = inl urgent_normal
Above-cases urgent low = inl urgent_low
Above-cases high urgent = inr (inr urgent_high)
Above-cases high high = inr (inl refl)
Above-cases high normal = inl high_normal
Above-cases high low = inl high_low
Above-cases normal urgent = inr (inr urgent_normal)
Above-cases normal high = inr (inr high_normal)
Above-cases normal normal = inr (inl refl)
Above-cases normal low = inl normal_low
Above-cases low urgent = inr (inr urgent_low)
Above-cases low high = inr (inr high_low)
Above-cases low normal = inr (inr normal_low)
Above-cases low low = inr (inl refl)

Above-rank : {p q : WriteOperationPriority} → Above p q → rank p < rank q
Above-rank urgent_high = omega arith
Above-rank urgent_normal = omega arith
Above-rank urgent_low = omega arith
Above-rank high_normal = omega arith
Above-rank high_low = omega arith
Above-rank normal_low = omega arith

pub compare_priority-MayPrecede :
    (a b : WriteOperation) → compare_priority a b ≡ false → MayPrecede a b
unfolding compare_priority
compare_priority-MayPrecede a b h = elim (Above-cases a.priority b.priority) [
  | inl above ↦ inl above
  | inr (inl same) ↦ inr (same, ground (arith, h, ap rank same))
  | inr (inr below) ↦ absurd (ground (arith, h, Above-rank below))
]

abbrev pub by_scan : Selection
by_scan = record {
  select = select compare_priority;
  select-perm = select-perm compare_priority;
  select_top = select-IsTop compare_priority compare_priority_trans compare_priority_total;
}
