-- ===== src/Stream/Content.antt =====
-- The bytes of a file as its clusters hold them, and the laws that the volume below an open file keeps.
use mathlib.Core.Option
use unifat.Prelude.{
  ℕ, zero, suc, ◌+◌, ◌*◌, ◌/◌, ◌%◌, ◌<◌, ◌≡◌, refl, ap, ◌∙◌, arith, Option, some, Image, slice,
  u32_max,
}
use unifat.Error.{ok, err, abort, FileResult}
use unifat.Codec.Time.{Calendar}
use unifat.Stream.Traits.{Backing}

-- The link of each cluster.
abbrev pub Links : Type 0
Links = ℕ → Option ℕ

-- The cluster after `n` links.
unfoldable pub nth_cluster : Links → ℕ → ℕ → Option ℕ
nth_cluster links first zero = some first
nth_cluster links first (suc n) = Option.bind (nth_cluster links first n) links

pub nth_cluster-suc :
    (links : Links) (first n : ℕ) {c d : ℕ}
    → nth_cluster links first n ≡ some c
    → links c ≡ some d
    → nth_cluster links first (n + 1) ≡ some d
unfolding nth_cluster Option.bind
nth_cluster-suc links first n {c} {d} at link =
    let e : n + 1 ≡ suc n = omega arith in
    ap (nth_cluster links first) e ∙ ap (λ o. Option.bind o links) at ∙ link

pub div_part : (k cs r : ℕ) → r < cs → (k * cs + r) / cs ≡ k
div_part k cs r h = grind arith

pub mod_part : (k cs r : ℕ) → r < cs → (k * cs + r) % cs ≡ r
mod_part k cs r h = grind arith

pub split_part : (x cs : ℕ) → 0 < cs → (x / cs * cs + x % cs ≡ x) × (x % cs < cs)
split_part x cs h = grind arith

module _ (K : Calendar) (B : Backing K) where
  open B use {World, Io}

  -- A call that leaves the volume as it is returns what `Q` says.
  abbrev pub Looks :
      {A : Type 0} → (World → Type 0) → (A → Type 0) → World × FileResult Io A → Type 0
  Looks V Q (w, ok a) = V w × Q a
  Looks V Q (w, err e) = V w
  Looks V Q (w, abort) = ⊥

  -- `View w f g`: the volume in state `w` has the image `f` and the links `g`.
  pub record Laws : Type 1 where
    pub View : World → Image → Links → Type 0
    pub some_bytes : 0 < B.cluster_size
    pub next-link :
        (w : World) (f : Image) (g : Links) (c : ℕ)
        → View w f g
        → Looks (λ w'. View w' f g) (λ o. o ≡ g c) (B.next c w)
    pub read_at-slice :
        (w : World) (f : Image) (g : Links) (offset n : ℕ)
        → View w f g
        → Looks (λ w'. View w' f g) (λ bytes. bytes ≡ slice f offset n) (B.read_at offset n w)
    -- A cluster with a link has a number below the last one of 32 bits.
    pub counted :
        (w : World) (f : Image) (g : Links) (c d : ℕ) → View w f g → g c ≡ some d → c < u32_max
    -- A cluster that is linked to the next one lies before it on the disk.
    pub affine :
        (w : World) (f : Image) (g : Links) (c : ℕ)
        → View w f g
        → g c ≡ some (c + 1)
        → B.cluster_to_offset (c + 1) ≡ B.cluster_to_offset c + B.cluster_size

  -- The byte of a file at a position: none past the end of the chain.
  unfoldable pub byte_at : Image → Links → ℕ → ℕ → Option ℕ
  unfolding nth_cluster
  byte_at f g first i =
      Option.map (λ c. f (B.cluster_to_offset c + i % B.cluster_size))
        (nth_cluster g first (i / B.cluster_size))

  pub byte_at-part :
      (f : Image) (g : Links) (first k r : ℕ) {c : ℕ}
      → r < B.cluster_size
      → nth_cluster g first k ≡ some c
      → byte_at f g first (k * B.cluster_size + r) ≡ some (f (B.cluster_to_offset c + r))
  unfolding byte_at
  byte_at-part f g first k r {c} fits at =
      rw (div_part k B.cluster_size r fits, mod_part k B.cluster_size r fits, at) refl
