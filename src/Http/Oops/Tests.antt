-- ===== src/Http/Oops/Tests.antt =====
-- Messages as codes.
use dfl.Base.{
  ◌≡◌, refl, false, true, all_chars, trim_space, map_text, lower, keep_chars, nth_char,
  small_letters, is_space, trim_left, trim_right,
}
use dfl.Http.Oops.{is_code, starts_underscore, code_from_message, collapse, drop_last}
use dfl.Http.Oops.Codes.{apart, ends_underscore, code_from_message-is_code}

dial_error : code_from_message " Dial TCP: (refused)!" ≡ "dial_tcp_refused"
unfolding code_from_message trim_space map_text lower keep_chars is_code collapse drop_last nth_char
    small_letters is_space starts_underscore trim_left trim_right
dial_error = refl

code_from_message-is_code_example :
    (all_chars is_code (code_from_message " Dial TCP: (refused)!") ≡ true)
    × (starts_underscore (code_from_message " Dial TCP: (refused)!") ≡ false)
    × (ends_underscore (code_from_message " Dial TCP: (refused)!") ≡ false)
    × (apart (code_from_message " Dial TCP: (refused)!") ≡ true)
code_from_message-is_code_example = code_from_message-is_code " Dial TCP: (refused)!"
