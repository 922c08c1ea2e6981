-- ===== src/Tests/Requests.antt =====
-- Sequences of requests to the wallet service.
use go_ewallet_backend.Prelude.{◌≡◌, refl, ◌⊎◌}
use go_ewallet_backend.Service.Books.{IsSound}
use go_ewallet_backend.Service.Reservation.Completion.{IsSettled}
use go_ewallet_backend.Service.Wallet.Requests.Bank.{Steps, accounts_of}
use go_ewallet_backend.Service.Wallet.Requests.Refinement.{serve_all-Steps}
use go_ewallet_backend.Service.Wallet.Requests.{Request, serve, serve_all}
use go_ewallet_backend.Service.Wallet.Requests.Money.{Backed, serve_all-Backed}
use go_ewallet_backend.Service.Wallet.Requests.Replayed.{
  serve-used, serve-at_most_once, serve_all-IsSettled,
}
use go_ewallet_backend.Service.Wallet.Requests.Sound.{serve_all-IsSound}
use go_ewallet_backend.Tests.Fixture.{
  calm, lenient, cut, ordered, ordered-IsSound, coffee, used_key, all_requests,
}

serve_all-IsSound_example : IsSound (serve_all all_requests ordered).committed
serve_all-IsSound_example = serve_all-IsSound all_requests ordered ordered-IsSound

serve_all-Backed_example : Backed ordered.committed (serve_all all_requests ordered).committed
serve_all-Backed_example = serve_all-Backed all_requests ordered ordered-IsSound

serve-at_most_once_example :
    ((serve cut (Request.send 11 "k1" coffee) ordered).committed ≡ ordered.committed)
    ⊎ (let v = serve_all all_requests (serve cut (Request.send 11 "k1" coffee) ordered) in
        (serve calm (Request.send 11 "k1" coffee) v).committed ≡ v.committed)
serve-at_most_once_example =
    serve-at_most_once cut calm (Request.send 11 "k1" coffee) all_requests ordered

serve-used_example :
    (serve lenient (Request.send 11 "k1" coffee) used_key).committed ≡ used_key.committed
serve-used_example = serve-used lenient (Request.send 11 "k1" coffee) used_key refl

serve_all-IsSettled_example : IsSettled (serve_all all_requests used_key).committed
serve_all-IsSettled_example = serve_all-IsSettled all_requests used_key refl

serve_all-Steps_example :
    Steps all_requests
      (accounts_of ordered.committed)
      (accounts_of (serve_all all_requests ordered).committed)
serve_all-Steps_example = serve_all-Steps all_requests ordered ordered-IsSound
