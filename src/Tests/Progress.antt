-- ===== src/Tests/Progress.antt =====
-- internal/service/wallet.go: requests with nothing in their way.
use go_ewallet_backend.Prelude.{◌≡◌, refl, subst, arith, String, some}
use go_ewallet_backend.Prelude.Int.{◌+ℤ◌}
use go_ewallet_backend.Model.{TransferResponse}
use go_ewallet_backend.Runtime.{Env, World, ok}
use go_ewallet_backend.Service.Reference.{reference_name}
use go_ewallet_backend.Service.Wallet.Transfer.{transfer_with_idempotency}
use go_ewallet_backend.Service.Wallet.Transfer.Ready.{
  IsReady, IsNewReference, GivesReferences, HasNewIds,
}
use go_ewallet_backend.Service.Wallet.Transfer.Receipt.{Receipt}
use go_ewallet_backend.Service.Wallet.Transfer.Succeeds.{transfer-succeeds}
use go_ewallet_backend.Tests.Fixture.{calm, start, start-IsSound, coffee, wallet_of}

-- Surroundings whose dice always fall the same way.
abbrev steady : Env
steady = record calm { random_hex = λ bytes n. some "0a1b2c3d" }

steady-IsReady : IsReady steady 11 "k1" coffee start.committed
unfolding ◌+ℤ◌
steady-IsReady = record {
  sender = wallet_of 1 50000;
  recipient = wallet_of 2 0;
  sent_by = refl;
  sent_to = refl;
  distinct = refl;
  positive = ground arith;
  covered = ground arith;
  room = ground arith;
  account = refl;
  keyed = refl;
  unused_key = refl;
  text = _;
  marshalled = refl;
}

steady-GivesReferences : GivesReferences steady start.committed
steady-GivesReferences = record {
  random_given = λ n. ("0a1b2c3d", refl);
  reference_new = λ n hex h.
      subst (λ x. IsNewReference (reference_name "TRF" "20260101000000" x) start.committed)
        (known hex h) (record { nonempty = refl; no_transfer = refl; no_entry = refl });
}
  where
    known : (hex : String) → some "0a1b2c3d" ≡ some hex → "0a1b2c3d" ≡ hex
    known hex h = ground arith

start-HasNewIds : HasNewIds start.committed start.seq
start-HasNewIds = record {
  new_key_id = refl;
  new_key_reference = refl;
  new_transfer = refl;
  new_entry = refl;
  new_second_entry = refl;
  new_event = refl;
}

transfer-succeeds_example :
    (r : TransferResponse) × (w' : World) × (transfer_with_idempotency steady 11 "k1" coffee start
      ≡ (ok r, w'))
    × Receipt 11 coffee start.committed r w'.committed
transfer-succeeds_example =
    transfer-succeeds steady 11 "k1" coffee start (λ n. refl) steady-IsReady start-IsSound.0
      steady-GivesReferences start-HasNewIds
