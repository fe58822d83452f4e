-- ===== src/Pairing/Examples.antt =====
-- Downloads of one file.
use tempa.Base.{◌≡◌, none, some, [], ◌∷◌, arith}
use tempa.Pairing.{Tokens, TransferConfig, Surroundings, FileInfo, create_transfer_token}
use tempa.Pairing.Downloads.{downloads, downloads-create}

abbrev config : TransferConfig
config = record { token_ttl_seconds = some 1; max_file_mb = none; port = none }

abbrev around : Surroundings
around = record { token = "t"; host = "127.0.0.1"; qr_image = λ url. none }

abbrev file : FileInfo
file = record { path = "/tmp/a"; name = "a"; size = 12 }

abbrev made : Tokens
made = (create_transfer_token config around (some file) 5 []).1

downloads-create_example : downloads "t" (6 ∷ 7 ∷ []) made ≡ 2
downloads-create_example =
    downloads-create config around file 5 [] (6 ∷ 7 ∷ []) (omega arith) (omega arith)
