-- ===== src/Tests/Handshake.antt =====
-- The handshake of two peers.
use hardlight.Prelude.{ℕ, true, ◌≢◌, inr, ◌≡◌, refl, some, arith}
use hardlight.Handshake.{Response, hl_version_string, client_request}
use hardlight.Server.Connection.{new_connection}
use hardlight.Client.{Client, new_client}
use hardlight.System.Opening.{accept_connection, Delivers, open_client, started, connection_opens}

some-Delivers : Delivers some
some-Delivers = record { unchanged = λ r. inr refl; switches = λ r status. refl }

connection_opens_example :
    (response : Response) × (accept_connection some 6 true true
        (hl_version_string 12)
        (client_request (hl_version_string 3) 9)
      ≡ some (new_connection 9, response))
    × (◌≡◌ {A = ℕ} 3 12
        → open_client (hl_version_string 3) 9 tt (some response) ≡ started (new_client 9 tt))
    × (◌≢◌ {A = ℕ} 3 12
        → (c : Client (Unit {0}))
        → open_client (hl_version_string 3) 9 tt (some response) ≢ started c)
connection_opens_example =
    connection_opens some 6 some (λ value visible. refl) some-Delivers 3 12 9 tt (omega arith)
      (omega arith) (omega arith)
