-- ===== src/Prelude/Time.antt =====
-- time.Time as nanoseconds since the zero time, and time.Duration as a signed integer of 64 bits, by
-- its residue: the residues from `2 ^ 63` on are negative.
use Prim.Native.Nat.{ℕ, ◌+◌, ◌-◌, ◌*◌, ◌%◌, ◌^◌}
use cloud_secrets.Prelude.Tests.{ltb, if◌then◌else◌}

-- `t.Add(d)`
abbrev pub add : ℕ → ℕ → ℕ
add t d = if ltb d (2 ^ 63) then t + d else t - (2 ^ 64 - d)

-- `time.Duration(n) * time.Second`
abbrev pub seconds : ℕ → ℕ
seconds n = n * 1000000000 % 2 ^ 64
