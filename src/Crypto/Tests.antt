-- ===== src/Crypto/Tests.antt =====
-- Runs on the sample buffers.
use ocrowley_commons.Common.{err, first_chars, ok, refl, some, utf16_length, ◌≡◌}
use ocrowley_commons.Crypto.{
  decrypt, encrypt, get_master_key, invalid_format, is_encrypted, missing_key, open_parts,
  safe_encrypt, split_parts,
}
use ocrowley_commons.Crypto.Samples.{test_iv, test_key, text_node}

-- A short key is no key.
short_key_test : encrypt text_node (some "abc") test_iv "lead" ≡ err missing_key
unfolding encrypt get_master_key utf16_length first_chars
short_key_test = refl

decrypt_test : decrypt text_node test_key "yaya" ≡ err invalid_format
unfolding decrypt open_parts get_master_key utf16_length first_chars split_parts
decrypt_test = refl

-- A note with two colons passes for an encrypted one, and is stored as it is.
note_test :
    safe_encrypt text_node test_key test_iv "Meeting with Anna: 10:30"
    ≡ ok "Meeting with Anna: 10:30"
unfolding safe_encrypt is_encrypted split_parts utf16_length
note_test = refl
