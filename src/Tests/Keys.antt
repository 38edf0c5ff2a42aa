-- ===== src/Tests/Keys.antt =====
-- The theorems on the sources of the key, at concrete inputs.
use zerolease.Prelude.{◌≡◌, refl, true, none, some, [], ◌∷◌, Text, codes, arith}
use zerolease.Types.Secrets.{Bytes}
use zerolease.Error.{ok}
use zerolease.KeySources.Environment.{panics, decode_hex_32, decode_pairs, from_str_radix, to_digit}
use zerolease.KeySources.Kms.{KmsClient, DekFile, rotate_dek, load_or_create_dek, seal_dek}
use zerolease.KeySources.Kms.Loading.{load_or_create_dek-rotate_dek}
use zerolease.Tests.Sample.{zeros}

-- A plus sign is taken for a digit, and a cut character ends the program.
plus_reads : from_str_radix b'+' b'f' ≡ some 15
unfolding from_str_radix to_digit
plus_reads = refl

abbrev cut : Text
cut = b'a' ∷ 0xc3 ∷ 0xa9 ∷ zeros 61

cut-panics : decode_hex_32 cut ≡ panics
unfolding decode_hex_32 decode_pairs
cut-panics = refl

-- A service that puts a byte in front.
abbrev service : KmsClient
service = record {
  encrypt = λ key. some (1 ∷ key);
  decrypt = λ ciphertext. elim ciphertext [ [] ↦ none | (b ∷ key) ↦ some key ];
}

service-opens :
    (key ciphertext : Bytes)
    → service.encrypt key ≡ some ciphertext
    → service.decrypt ciphertext ≡ some key
service-opens key [] e = absurd (ground arith)
service-opens key (b ∷ c) e = ground arith

abbrev old_file : DekFile
old_file = record { blob = some (1 ∷ 2 ∷ []); readable = true; writable = true }

abbrev new_file : DekFile
new_file = record { blob = some (1 ∷ zeros 32); readable = true; writable = true }

rotated :
    rotate_dek service (codes "key") old_file (zeros 32)
    ≡ (ok (record { ciphertext = 1 ∷ zeros 32; key_id = codes "key" }), new_file)
unfolding rotate_dek seal_dek
rotated = refl

load_or_create_dek-rotate_dek_example :
    load_or_create_dek service (codes "key") new_file [] ≡ (ok (zeros 32), new_file)
load_or_create_dek-rotate_dek_example =
    load_or_create_dek-rotate_dek service (codes "key") service-opens old_file new_file (zeros 32)
      [] (record { ciphertext = 1 ∷ zeros 32; key_id = codes "key" }) refl refl rotated
