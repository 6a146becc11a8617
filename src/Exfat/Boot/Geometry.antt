-- ===== src/Exfat/Boot/Geometry.antt =====
-- What the test of an entry's geometry guarantees.
use unifat.Prelude.{ℕ, ◌+◌, ◌-◌, ◌/◌, ◌^◌, ◌≤◌, ◌<◌, ◌≡◌, arith, true}
use unifat.Exfat.Boot.{ExfatBootRecord, bytes_per_cluster, div_ceil, run_fits, entry_geometry_valid}

-- The cluster of each of the `data_length` bytes from cluster `first` on is one of the volume.
abbrev pub InHeap : ExfatBootRecord → ℕ → ℕ → Type 0
InHeap b first data_length =
    (i : ℕ)
    → i < data_length
    → (2 ≤ first + i / bytes_per_cluster b)
      × (first + i / bytes_per_cluster b ≤ b.cluster_count + 1)

quotient-lt : (i n b : ℕ) → 0 < b → i < n → i / b < div_ceil n b
quotient-lt i n b some_bytes lt = grind arith

-- A directory entry with contiguous clusters whose geometry is valid, on an exFAT volume whose cluster
-- count plus one fits 32 bits, has a valid length of at most its length, also where the length is
-- zero, and the cluster of each byte of its data is one of the volume.
pub entry_geometry_valid-InHeap :
    (b : ExfatBootRecord) (first data_length valid_data_length : ℕ)
    → b.cluster_count + 1 < 2 ^ 32
    → entry_geometry_valid b first data_length valid_data_length true ≡ true
    → (valid_data_length ≤ data_length) × InHeap b first data_length
unfolding entry_geometry_valid run_fits
entry_geometry_valid-InHeap b first data_length valid_data_length count valid = (
  ground arith,
  λ i inside.
      let some_bytes : 0 < bytes_per_cluster b = ground arith in
      let spot = quotient-lt i data_length (bytes_per_cluster b) some_bytes inside in
      let two : 2 ≤ first = ground arith in
      let end : first + div_ceil data_length (bytes_per_cluster b) - 1 ≤ b.cluster_count + 1 =
        ground arith in
      (omega arith, omega arith),
)
