-- ===== src/Tests/Request.antt =====
-- A path and the template of a chunk's name: `lws_string_sub` at them.
use lambda_lws.Prelude.{ℕ, ◌≡◌, refl, none, some, List, [], ◌∷◌, codes, replicate, pos, negsuc}
use lambda_lws.Body.{copy}
use lambda_lws.Request.Substitute.{
  Match, to_size, match_len, is_group, add_len, group_len, char_len, measure, slice, fill, Alloc,
  substitute, string_sub,
}

unfoldable zeros : Alloc
zeros n = some (replicate n 0)

-- The path, with the group behind the slash.
abbrev path : List ℕ
path = codes "/foo"

abbrev whole_path : Match
whole_path = record { rm_so = pos 0; rm_eo = pos 4 }

abbrev last_name : Match
last_name = record { rm_so = pos 1; rm_eo = pos 4 }

abbrev no_match : Match
no_match = record { rm_so = negsuc 0; rm_eo = negsuc 0 }

abbrev path_match : List Match
path_match = whole_path ∷ last_name ∷ replicate 8 no_match

program : List ℕ
unfolding to_size match_len is_group add_len group_len char_len measure slice fill substitute
    string_sub copy zeros
program = []

sub_name : string_sub zeros (codes "x$1.lua$") path path_match ≡ some (some (codes "xfoo.lua$"))
unfolding program
sub_name = refl

sub_unmatched : string_sub zeros (codes "$2") path path_match ≡ some none
unfolding program
sub_unmatched = refl
