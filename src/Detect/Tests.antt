-- ===== src/Detect/Tests.antt =====
-- detect.go on small inputs, and its theorem at one of them.
use certkit.Prelude.{◌≡◌, refl, ℕ, List, [], ◌∷◌, none, true, false, arith, replicate}
use certkit.Result.{ok, Ensures}
use certkit.Store.Types.{Format, Encoding}
use certkit.Detect.Model.{Confidence, Parsers, looks_like_bks, detect}
use certkit.Detect.Total.{IsFound, detect-IsFound}

abbrev pub parsers : Parsers
parsers = record {
  trim_space = λ b. b;
  pem_decode = λ b. none;
  unmarshal_pfx = λ b. none;
  unmarshal_content_info = λ b. none;
  is_certificate = λ b. false;
  is_private_key = λ b. false;
}

-- Version 1, a salt of one byte, 1 iteration.
abbrev pub bks_file : List ℕ
bks_file = 0 ∷ 0 ∷ 0 ∷ 1 ∷ 0 ∷ 0 ∷ 0 ∷ 1 ∷ 9 ∷ 0 ∷ 0 ∷ 0 ∷ 1 ∷ replicate 20 0

looks_like_bks_file : looks_like_bks bks_file ≡ ok true
unfolding looks_like_bks
looks_like_bks_file = refl

jks_file :
    detect parsers (0xfe ∷ 0xed ∷ 0xfe ∷ 0xed ∷ [])
    ≡ ok (record { format = Format.jks; encoding = Encoding.der; confidence = Confidence.high })
unfolding detect
jks_file = refl

detect-IsFound_example : Ensures IsFound (detect parsers bks_file)
detect-IsFound_example = detect-IsFound parsers bks_file (omega arith)
