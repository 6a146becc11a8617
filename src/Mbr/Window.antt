-- ===== src/Mbr/Window.antt =====
-- A partition adapter of src/mbr.rs reads and writes the bytes of its window only.
use unifat.Prelude.{
  ℕ, zero, suc, ◌∷◌, ◌+◌, ◌-◌, ◌≤◌, ◌<◌, ◌≡◌, ◌⊎◌, inl, inr, refl, sym, ap, ◌∙◌, arith, min,
  Bool-cases, ◌||◌, ◌==◌, List, [], length, take, length-take, slice, overlay, overlay-nil,
}
use unifat.Error.{Result, ok, err, abort, and_then}
use unifat.Mbr.{Storage, PartitionError, Partition, on_inner, part_read, part_write}

take-take : (n m : ℕ) (xs : List ℕ) → n ≤ m → take n (take m xs) ≡ take n xs
take-take zero m xs h = refl
take-take (suc n) zero xs h = absurd (omega arith)
take-take (suc n) (suc m) [] h = refl
take-take (suc n) (suc m) (x ∷ xs) h = ap (◌∷◌ x) (take-take n m xs (omega arith))

module _ (S : Storage) where
  open S use {Dev, Io, image, cursor}

  abbrev pub WindowRead :
      Partition S → ℕ → Partition S × Result (PartitionError Io) (List ℕ) → Type 0
  WindowRead p n (p', ok bytes) =
      (image p'.inner ≡ image p.inner)
      × (bytes ≡ slice (image p.inner) (p.base + p.pos) (length bytes))
      × (length bytes ≤ n)
      × ((length bytes ≡ 0) ⊎ (p.pos + length bytes ≤ p.len))
      × (p'.pos ≡ p.pos + length bytes)
  WindowRead p n (p', err e) = (image p'.inner ≡ image p.inner) × (p'.pos ≡ p.pos)
  WindowRead p n (p', abort) = ⊥

  -- A read through a partition adapter returns bytes of the partition only, from its position on, at
  -- most as many as asked for, and moves the position past them. It changes no byte of the device and
  -- does not panic.
  pub part_read-window : (p : Partition S) (n : ℕ) → WindowRead p n (part_read S p n)
  unfolding part_read on_inner
  part_read-window p n = elim (Bool-cases ((p.len - p.pos == 0) || (n == 0))) [
    | inl none_left ↦ rw none_left (refl, unfold slice in refl, omega arith, inl refl, omega arith)
    | inr some_left ↦ rw some_left (sought (S.seek (p.base + p.pos) p.inner) refl (ground arith))
  ]
    where
      want : ℕ
      want = min n (p.len - p.pos)

      fetched :
          (d : Dev)
          → image d ≡ image p.inner
          → cursor d ≡ p.base + p.pos
          → p.pos < p.len
          → (q : Dev × Result Io (List ℕ)) → S.read want d ≡ q
          → WindowRead p n (
              and_then
                (on_inner S (record p { inner = d }) q)
                (λ p2 bytes. (record p2 { pos = p2.pos + length bytes }, ok bytes)))
      fetched d same at room (d', ok bytes) e =
          let (short, all) = S.read-bytes want d (ap (λ r. r.1) e) in
          (
            sym (ap (λ r. image r.0) e) ∙ S.read-image want d ∙ same,
            all
                ∙ ap (λ f. slice f (cursor d) (length bytes)) same
                ∙ ap (λ c. slice (image p.inner) c (length bytes)) at,
            omega arith,
            inr (omega arith),
            refl,
          )
      fetched d same at room (d', err e') e =
          (sym (ap (λ r. image r.0) e) ∙ S.read-image want d ∙ same, refl)
      fetched d same at room (d', abort) e = S.read-returns want d (ap (λ r. r.1) e)

      sought :
          (q : Dev × Result Io (Unit {0}))
          → S.seek (p.base + p.pos) p.inner ≡ q
          → p.pos < p.len
          → WindowRead p n (
              and_then (on_inner S p q) (λ p1 _.
                and_then
                  (on_inner S p1 (S.read want p1.inner))
                  (λ p2 bytes. (record p2 { pos = p2.pos + length bytes }, ok bytes))))
      sought (d, ok u) e room =
          fetched d (sym (ap (λ r. image r.0) e) ∙ S.seek-image (p.base + p.pos) p.inner)
            (sym (ap (λ r. cursor r.0) e)
              ∙ S.seek-cursor (p.base + p.pos) p.inner (ap (λ r. r.1) e))
            room (S.read want d) refl
      sought (d, err e') e room =
          (sym (ap (λ r. image r.0) e) ∙ S.seek-image (p.base + p.pos) p.inner, refl)
      sought (d, abort) e room = S.seek-returns (p.base + p.pos) p.inner (ap (λ r. r.1) e)

  abbrev pub WindowWritten :
      Partition S → List ℕ → Partition S × Result (PartitionError Io) ℕ → Type 0
  WindowWritten p buf (p', ok n) =
      (n ≤ length buf)
      × ((n ≡ 0) ⊎ (p.pos + n ≤ p.len))
      × (image p'.inner ≡ overlay (image p.inner) (p.base + p.pos) (take n buf))
      × (p'.pos ≡ p.pos + n)
  WindowWritten p buf (p', err e) =
      (p'.pos ≡ p.pos)
      × ((o : ℕ) → (o < p.base + p.pos) ⊎ (p.base + p.len ≤ o) → image p'.inner o ≡ image p.inner o)
  WindowWritten p buf (p', abort) = ⊥

  -- A write through a partition adapter puts a front part of its bytes into the partition from its
  -- position on, and moves the position past them. Where it fails no byte before the position or past
  -- the end of the partition changes. It does not panic.
  pub part_write-window :
      (p : Partition S) (buf : List ℕ) → WindowWritten p buf (part_write S p buf)
  unfolding part_write on_inner
  part_write-window p buf = elim (Bool-cases (length buf == 0)) [
    | inl nothing ↦
        rw nothing
          (omega arith, inl refl, sym (overlay-nil (image p.inner) (p.base + p.pos)), omega arith)
    | inr something ↦ elim (Bool-cases (p.len - p.pos == 0)) [
      | inl full ↦ rw (something, full) (refl, λ o apart. refl)
      | inr room ↦
          rw (something, room) (sought (S.seek (p.base + p.pos) p.inner) refl (ground arith))
    ]
  ]
    where
      want : ℕ
      want = min (length buf) (p.len - p.pos)

      part : List ℕ
      part = take want buf

      outside :
          (d : Dev)
          → cursor d ≡ p.base + p.pos
          → p.pos < p.len
          → (o : ℕ) → (o < p.base + p.pos) ⊎ (p.base + p.len ≤ o)
          → (o < cursor d) ⊎ (cursor d + length part ≤ o)
      outside d at room o (inl before) = inl (omega arith)
      outside d at room o (inr past) = inr (omega (arith, length-take want buf))

      stored :
          (d : Dev)
          → image d ≡ image p.inner
          → cursor d ≡ p.base + p.pos
          → p.pos < p.len
          → (q : Dev × Result Io ℕ) → S.write part d ≡ q
          → WindowWritten p buf (
              and_then
                (on_inner S (record p { inner = d }) q)
                (λ p2 n. (record p2 { pos = p2.pos + n }, ok n)))
      stored d same at room (d', ok n) e =
          let (short, all) = S.write-image part d (ap (λ r. r.1) e) in
          let len_part = length-take want buf in
          (
            omega arith,
            inr (omega arith),
            sym (ap (λ r. image r.0) e)
                ∙ all
                ∙ ap (λ f. overlay f (cursor d) (take n part)) same
                ∙ ap (λ c. overlay (image p.inner) c (take n part)) at
                ∙ ap (overlay (image p.inner) (p.base + p.pos))
                    (take-take n want buf (omega arith)),
            refl,
          )
      stored d same at room (d', err e') e =
          let len_part = length-take want buf in
          (
            refl,
            λ o apart.
                sym (ap (λ r. image r.0 o) e)
                ∙ S.write-outside part d o (outside d at room o apart)
                ∙ ap (λ f. f o) same,
          )
      stored d same at room (d', abort) e = S.write-returns part d (ap (λ r. r.1) e)

      sought :
          (q : Dev × Result Io (Unit {0}))
          → S.seek (p.base + p.pos) p.inner ≡ q
          → p.pos < p.len
          → WindowWritten p buf (
              and_then (on_inner S p q) (λ p1 _.
                and_then
                  (on_inner S p1 (S.write part p1.inner))
                  (λ p2 n. (record p2 { pos = p2.pos + n }, ok n))))
      sought (d, ok u) e room =
          stored d (sym (ap (λ r. image r.0) e) ∙ S.seek-image (p.base + p.pos) p.inner)
            (sym (ap (λ r. cursor r.0) e)
              ∙ S.seek-cursor (p.base + p.pos) p.inner (ap (λ r. r.1) e))
            room (S.write part d) refl
      sought (d, err e') e room = (
        refl,
        λ o apart.
            ap (λ f. f o) (sym (ap (λ r. image r.0) e) ∙ S.seek-image (p.base + p.pos) p.inner),
      )
      sought (d, abort) e room = S.seek-returns (p.base + p.pos) p.inner (ap (λ r. r.1) e)
