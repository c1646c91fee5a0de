-- ===== src/Blobs/Examples.antt =====
-- The round trip at a concrete attachment, over the sample library.
use upmessenger.Base.{◌≡◌, refl, [], ◌∷◌, Bytes, ok, ◌++◌}
use upmessenger.Blobs.{encrypt, decrypt, decrypt-encrypt_blob}
use upmessenger.Crypto.{encrypt as aead_encrypt}
use upmessenger.Samples.{zeros, primitives, primitive_laws}

abbrev photo : Bytes
photo = 255 ∷ 216 ∷ 255 ∷ []

encrypted : encrypt primitives (zeros 12) (zeros 32) (zeros 16) photo ≡ ok (zeros 12 ++ photo)
unfolding encrypt aead_encrypt
encrypted = refl

decrypt-encrypt_blob_example :
    decrypt primitives (zeros 32) (zeros 16) (zeros 12 ++ photo) ≡ ok photo
decrypt-encrypt_blob_example =
    decrypt-encrypt_blob primitives primitive_laws (zeros 12) (zeros 32) photo (zeros 12 ++ photo)
      (zeros 16) refl encrypted
