-- ===== src/Go/Sha256/Tests.antt =====
-- Runs of the digest at the test vectors of FIPS 180-4.
use plumbline.Go.Hex.{encode, hex_digit}
use plumbline.Go.Sha256.{sum256}
use plumbline.Base.{codes, ◌≡◌, refl}

sum256_abc :
    encode (sum256 (codes "abc"))
    ≡ codes "ba7816bf8f01cfea414140de5dae2223b00361a396177a9cb410ff61f20015ad"
unfolding encode hex_digit sum256
sum256_abc = refl
