-- ===== src/Outbox/Order.antt =====
-- The claim takes the oldest due job first.
use iceberg_cti.Base.{nat_eq, string_eq, ◌≡◌, true, [], ◌∷◌}
use iceberg_cti.Models.{OutboxJob}
use iceberg_cti.Outbox.{Table}
use iceberg_cti.Outbox.Claim.{before}

-- The row comes before all rows of the list.
abbrev pub IsFirst : OutboxJob → Table → Type 0
IsFirst j [] = Unit
IsFirst j (k ∷ ks) = (before j k ≡ true) × IsFirst j ks
