-- ===== src/Utils/Tests.antt =====
-- Numbers that the kernel writes and reads (gluKe/utils.c).
use glu_ke.Base.{◌≡◌, some, arith}
use glu_ke.Base.Int.{ok_code}
use glu_ke.Utils.{itos_ud, itos_ux, stoi}
use glu_ke.Utils.RoundTrip.{stoi-itos}

stoi-itos_example :
    (stoi (some (itos_ud 1234)) 0 ≡ (ok_code, 1234))
    × (stoi (some (itos_ux 1234)) 0 ≡ (ok_code, 1234))
stoi-itos_example = stoi-itos 1234 0 (omega arith)
