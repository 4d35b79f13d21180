-- ===== src/BoundedVec/Cyclic/Last.antt =====
-- The newest element of a `CyclicBoundedVec`.
use light_protocol.Prelude.{
  ◌<◌, ◌≡◌, ap, some, ok, arith, length, set, set-set_self, length-set, ltb, unwrap, true, lt→ltb,
  lt→leb_false,
}
use light_protocol.BoundedVec.Cells.{cell-set_self}
use light_protocol.BoundedVec.Cyclic.{CyclicBoundedVec, index, index_mut}
use light_protocol.BoundedVec.Cyclic.Refine.{
  IsValid, pushed, slot, slot-lt, pushed-IsValid, last-lt,
}

module _ {ℓ} {A : Type ℓ} where
  slot-len : (v : CyclicBoundedVec A) (x : A) → IsValid v → slot v < (pushed v x).len
  slot-len v x h =
      last-lt (pushed v x) (pushed-IsValid v x h) (ground (arith, h.within, h.positive))

  -- `last_index` points to the value that was pushed last.
  pub index-pushed {κ} :
      {E : Type κ} (v : CyclicBoundedVec A) (x : A)
      → IsValid v
      → index {E = E} (pushed v x) (slot v) ≡ ok x
  unfolding index
  index-pushed v x h =
      rw (lt→leb_false _ _ (slot-len v x h))
        (ap unwrap (cell-set_self v.buffer (slot v) x (rw h.storage (slot-lt v h))))

  -- A write to the newest slot is as if that value had been pushed.
  pub index_mut-pushed {κ} :
      {E : Type κ} (v : CyclicBoundedVec A) (x y : A)
      → IsValid v
      → index_mut {E = E} (pushed v x) (slot v) y ≡ ok (pushed v y)
  unfolding index_mut
  index_mut-pushed v x y h =
      let inside : ltb (slot v) (length (set v.buffer (slot v) (some x))) ≡ true =
        lt→ltb _ _ (rw (length-set v.buffer (slot v) (some x), h.storage) (slot-lt v h)) in
      rw (lt→leb_false _ _ (slot-len v x h), inside)
        (ap (λ cells. ok (record (pushed v y) { buffer = cells }))
          (set-set_self v.buffer (slot v) (some x) (some y)))
