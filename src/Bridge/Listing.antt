-- ===== src/Bridge/Listing.antt =====
-- The replies of readdir and readdirplus of src/fuse_bridge.cc fit the size that was asked for, and hold
-- as many entries as fit.
use fuse_native.Base.{
  ℕ, suc, ◌-◌, ◌≤◌, ◌<◌, ◌≡◌, ◌⊎◌, inl, inr, refl, ap, Bool, true, false, List, [], ◌∷◌, ◌++◌,
  Option, none, some, length, length-append, take, ltb, arith, Bool-cases, Option-cases,
}
use fuse_native.Bridge.Js.{JsValue}
use fuse_native.Bridge.Replies.{reply_buf}
use fuse_native.Bridge.Dirs.{Decoded, skipped, refused, packed, fill, fill_reply}

abbrev concat : List (List ℕ) → List ℕ
concat [] = []
concat (p ∷ ps) = p ++ concat ps

abbrev prepend : List ℕ → Option (List (List ℕ)) → Option (List (List ℕ))
prepend p none = none
prepend p (some ps) = some (p ∷ ps)

-- The entries of a list in bytes, where none of its elements is refused or leaves an exception.
unfoldable pub pieces : (ℕ → JsValue → Decoded) → ℕ → List JsValue → Option (List (List ℕ))
pieces decode i [] = some []
pieces decode i (item ∷ items) = elim (decode i item) [
  | skipped ↦ pieces decode (suc i) items
  | refused ↦ none
  | packed bytes true ↦ none
  | packed bytes false ↦ prepend bytes (pieces decode (suc i) items)
]

Decoded-cases :
    (d : Decoded)
    → ((d ≡ skipped) ⊎ (d ≡ refused))
      ⊎ ((bytes : List ℕ) × (pending : Bool) × (d ≡ packed bytes pending))
Decoded-cases skipped = inl (inl refl)
Decoded-cases refused = inl (inr refl)
Decoded-cases (packed bytes pending) = inr (bytes, pending, refl)

fill-length :
    (decode : ℕ → JsValue → Decoded) (i room : ℕ) (items : List JsValue) {bytes : List ℕ}
    → fill decode i room items ≡ some bytes
    → length bytes ≤ room
unfolding fill
fill-length decode i room [] h = ground arith
fill-length decode i room (item ∷ items) {bytes} h = elim (Decoded-cases (decode i item)) [
  | inl (inl e) ↦ fill-length decode (suc i) room items (rw (e, fill) at h)
  | inl (inr e) ↦ cc (rw (e, fill) at h)
  | inr (p, pending, e) ↦ elim (Option-cases (fill decode (suc i) (room - length p) items)) [
    | inl failed ↦ ground (arith, e, failed)
    | inr (rest, made) ↦ ground (
      arith,
      e,
      made,
      length-append p rest,
      fill-length decode (suc i) (room - length p) items made,
    )
  ]
]

-- The longest prefix of the entries that fits.
abbrev pub Longest : ℕ → List (List ℕ) → List ℕ → Type 0
Longest room ps bytes =
    (n : ℕ) × (bytes ≡ concat (take n ps))
    × (length bytes ≤ room)
    × ((length ps ≤ n) ⊎ (room < length (concat (take (suc n) ps))))

Longest-none :
    (room : ℕ) (p : List ℕ) (ps : List (List ℕ)) → room < length p → Longest room (p ∷ ps) []
Longest-none room p ps h = (0, refl, omega arith, inr (omega (arith, length-append {0} p [])))

Longest-cons :
    (room : ℕ) (p : List ℕ) (ps : List (List ℕ)) (rest : List ℕ)
    → length p ≤ room
    → Longest (room - length p) ps rest
    → Longest room (p ∷ ps) (p ++ rest)
Longest-cons room p ps rest fits (n, e, bounded, inl all) = (
  suc n,
  ap (λ (l : List ℕ). p ++ l) e,
  omega (arith, length-append {0} p rest),
  inl (omega arith),
)
Longest-cons room p ps rest fits (n, e, bounded, inr more) = (
  suc n,
  ap (λ (l : List ℕ). p ++ l) e,
  omega (arith, length-append {0} p rest),
  inr (omega (arith, length-append {0} p (concat (take (suc n) ps)))),
)

fill-Longest :
    (decode : ℕ → JsValue → Decoded) (i room : ℕ) (items : List JsValue) {ps : List (List ℕ)}
    → pieces decode i items ≡ some ps
    → (bytes : List ℕ) × (fill decode i room items ≡ some bytes) × Longest room ps bytes
unfolding fill pieces
fill-Longest decode i room [] {ps} h = ([], refl, (0, refl, omega arith, inl (ground arith)))
fill-Longest decode i room (item ∷ items) {ps} h = elim (Decoded-cases (decode i item)) [
  | inl (inl e) ↦ rw (e, fill) (fill-Longest decode (suc i) room items (rw (e, pieces) at h))
  | inl (inr e) ↦ cc (rw (e, pieces) at h)
  | inr (p, true, e) ↦ cc (rw (e, pieces) at h)
  | inr (p, false, e) ↦ elim (Option-cases (pieces decode (suc i) items)) [
    | inl failed ↦ cc (rw (e, pieces, failed) at h)
    | inr (qs, made) ↦
        let whole : ps ≡ p ∷ qs = ground (arith, e, made, h) in
        rw whole (elim (Bool-cases (ltb room (length p))) [
          | inl over ↦ ([], ground (arith, e, over), Longest-none room p qs (ground arith))
          | inr fits ↦
              let (rest, filled, longest) =
                fill-Longest decode (suc i) (room - length p) items made in
              (
                p ++ rest,
                ground (arith, e, fits, filled),
                Longest-cons room p qs rest (ground arith) longest,
              )
        ])
  ]
]

-- The bytes that readdir and readdirplus reply with are no more than were asked for, whatever their
-- elements are.
fill_reply-length :
    (decode : ℕ → JsValue → Decoded) (size : ℕ) (items : List JsValue) {bytes : List ℕ}
    → fill_reply decode size items ≡ reply_buf bytes
    → length bytes ≤ size
unfolding fill_reply
fill_reply-length decode size items {bytes} h = elim (Option-cases (fill decode 0 size items)) [
  | inl failed ↦ ground (arith, failed)
  | inr (filled, made) ↦ ground (arith, made, fill-length decode 0 size items made)
]

-- Where a size is asked for, and no element is refused or leaves an exception, the reply is the longest
-- prefix of the entries, in their order and each whole, that fits the size.
pub fill_reply-Longest :
    (decode : ℕ → JsValue → Decoded) (size : ℕ) (items : List JsValue) {ps : List (List ℕ)}
    → 0 < size
    → pieces decode 0 items ≡ some ps
    → (bytes : List ℕ) × (fill_reply decode size items ≡ reply_buf bytes) × Longest size ps bytes
unfolding fill_reply
fill_reply-Longest decode size items {ps} asked h =
    let (bytes, filled, longest) = fill-Longest decode 0 size items h in
    (bytes, ground (arith, filled), longest)
