-- ===== src/Providers/Paths.antt =====
-- The test of a path's segments that both providers make before they create a secret.
use cloud_secrets.Prelude.{Bool, ◌||◌, [], any, Text, codes, ◌==◌}
use cloud_secrets.Strings.{split}

abbrev pub is_invalid_segment : Text → Bool
is_invalid_segment segment = segment == [] || segment == codes "." || segment == codes ".."

unfoldable pub has_invalid_segment : Text → Bool
unfolding split
has_invalid_segment path = any is_invalid_segment (split b'/' path)
