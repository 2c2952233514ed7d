-- ===== src/Examples/Strings.antt =====
-- Runs of the standard library's string and path functions.
use cd.Prelude.{◌≡◌, refl, true, false, [], ◌∷◌}
use cd.Go.Text.{bytes}
use cd.Go.Utf8.{valid_string, contains_control, is_blank}
use cd.Go.Paths.{clean, base, join}

ascii_is_valid : valid_string (bytes "tv/show.mkv") ≡ true
unfolding valid_string bytes
ascii_is_valid = refl

overlong_is_invalid : valid_string (0xC0 ∷ 0x80 ∷ []) ≡ false
unfolding valid_string
overlong_is_invalid = refl

surrogate_is_invalid : valid_string (0xED ∷ 0xA0 ∷ 0x80 ∷ []) ≡ false
unfolding valid_string
surrogate_is_invalid = refl

next_line_is_control : contains_control (0x61 ∷ 0xC2 ∷ 0x85 ∷ []) ≡ true
unfolding contains_control
next_line_is_control = refl

ideographic_space_is_blank : is_blank (0x20 ∷ 0xE3 ∷ 0x80 ∷ 0x80 ∷ []) ≡ true
unfolding is_blank
ideographic_space_is_blank = refl

clean_dots : clean (bytes "/a/./b/../../c//d/") ≡ bytes "/c/d"
unfolding clean bytes
clean_dots = refl

clean_relative : clean (bytes "../a/../../b") ≡ bytes "../../b"
unfolding clean bytes
clean_relative = refl

base_of_directory : base (bytes "/115/tv/Show/") ≡ bytes "Show"
unfolding base bytes
base_of_directory = refl

join_workspace : join (bytes "/downloads/tv" ∷ bytes ".cd211" ∷ []) ≡ bytes "/downloads/tv/.cd211"
unfolding join bytes
join_workspace = refl
