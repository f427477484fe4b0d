-- ===== src/Bytes/Tests.antt =====
-- Strings at concrete inputs.
use ern_os.Base.{◌^◌, ◌-◌, ◌≡◌, ◌<◌, refl, some, none, List, [], ◌∷◌, arith, length}
use ern_os.Base.Int.{pos, negsuc}
use ern_os.Bytes.{codes, string_from_list, string_to_list}
use ern_os.Bytes.Text.{string_from_list-string_to_list}
use ern_os.Bytes.Search.{Answers, starts_with, strstr, string_index_of-Answers}
use ern_os.Bytes.Split.{string_split, join, Each, Lacks, join-string_split}
use ern_os.Bytes.Replace.{
  string_replace, result_len, string_replace-join, result_len-string_replace,
}
use ern_os.Bytes.Trim.{string_trim, Trims, string_trim-Trims}
use ern_os.Bytes.Builder.{
  Op, append, append_int, ep_sb_create, run, ep_sb_to_string, ep_sb_length, text,
  ep_sb_to_string-run,
}
use ern_os.Bytes.Base64.{ep_base64_encode, symbol, decode, out_len, decode-ep_base64_encode}
use ern_os.Bytes.Digits.{parse_int, cg_int_to_str, parse_int-cg_int_to_str}
use ern_os.Bytes.Paths.{
  get_file_dir, get_file_stem, IsDirOf, Parts, get_file_dir-IsDirOf, get_file_stem-Parts,
}

string_from_list-string_to_list_example :
    string_from_list (some (string_to_list (some (codes "moon")))) ≡ codes "moon"
string_from_list-string_to_list_example =
    string_from_list-string_to_list (codes "moon") (omega arith)

string_index_of-Answers_example : Answers (codes "banana") (codes "an")
string_index_of-Answers_example = string_index_of-Answers (codes "banana") (codes "an")

join-string_split_example :
    (join (codes ", ") (string_split (some (codes "a, b, c")) (some (codes ", ")))
      ≡ codes "a, b, c")
    × Each (Lacks (codes ", ")) (string_split (some (codes "a, b, c")) (some (codes ", ")))
join-string_split_example = join-string_split (codes "a, b, c") (codes ", ") (omega arith)

string_replace-join_example :
    string_replace (some (codes "banana")) (some (codes "an")) (some (codes "o"))
    ≡ join (codes "o") (string_split (some (codes "banana")) (some (codes "an")))
string_replace-join_example =
    string_replace-join (codes "banana") (codes "an") (codes "o") (omega arith)

replaced :
    string_replace (some (codes "banana")) (some (codes "an")) (some (codes "o")) ≡ codes "booa"
unfolding string_replace starts_with
replaced = refl

three_parts : length (string_split (some (codes "banana")) (some (codes "an"))) ≡ 3
unfolding string_split starts_with strstr
three_parts = refl

result_len-string_replace_example :
    result_len (codes "banana") (codes "an") (codes "o")
    ≡ length (string_replace (some (codes "banana")) (some (codes "an")) (some (codes "o")))
result_len-string_replace_example =
    result_len-string_replace (codes "banana") (codes "an") (codes "o") (omega arith)
      (omega (arith, three_parts)) (omega arith) (omega arith) (rw replaced (omega arith))

string_trim-Trims_example : Trims (codes "  a b ") (string_trim (some (codes "  a b ")))
string_trim-Trims_example = string_trim-Trims (codes "  a b ")

trimmed : string_trim (some (codes "  a b ")) ≡ codes "a b"
unfolding string_trim
trimmed = refl

abbrev calls : List Op
calls = append (some (codes "total: ")) ∷ append none ∷ append_int (pos 0) ∷ []

ep_sb_to_string-run_example :
    (ep_sb_to_string (run 7 cg_int_to_str (ep_sb_create 7) calls) ≡ text cg_int_to_str calls)
    × (ep_sb_length (run 7 cg_int_to_str (ep_sb_create 7) calls)
        ≡ length (text cg_int_to_str calls))
    × ((run 7 cg_int_to_str (ep_sb_create 7) calls).len
        < length (run 7 cg_int_to_str (ep_sb_create 7) calls).cells)
unfolding cg_int_to_str
ep_sb_to_string-run_example = ep_sb_to_string-run cg_int_to_str 7 calls (omega arith)

decode-ep_base64_encode_example :
    (decode (ep_base64_encode (codes "Ernos")) ≡ some (codes "Ernos"))
    × (length (ep_base64_encode (codes "Ernos")) ≡ out_len (length (codes "Ernos")))
decode-ep_base64_encode_example = decode-ep_base64_encode (codes "Ernos") (omega arith)

encoded : ep_base64_encode (codes "Ernos") ≡ codes "RXJub3M="
unfolding ep_base64_encode symbol
encoded = refl

parse_int-cg_int_to_str_example :
    (parse_int (cg_int_to_str (pos 204)) ≡ pos 204)
    × (cg_int_to_str (negsuc 204) ≡ b'-' ∷ cg_int_to_str (pos 205))
parse_int-cg_int_to_str_example = parse_int-cg_int_to_str 204 (omega arith)

least_written : cg_int_to_str (negsuc (2 ^ 63 - 1)) ≡ b'-' ∷ []
unfolding cg_int_to_str
least_written = refl

written : cg_int_to_str (negsuc 204) ≡ codes "-205"
unfolding cg_int_to_str
written = refl

get_file_dir-IsDirOf_example : IsDirOf (codes "lib/io.ep") (get_file_dir (codes "lib/io.ep"))
get_file_dir-IsDirOf_example = get_file_dir-IsDirOf (codes "lib/io.ep")

get_file_stem-Parts_example : Parts (codes "lib/io.ep") (get_file_stem (codes "lib/io.ep"))
get_file_stem-Parts_example = get_file_stem-Parts (codes "lib/io.ep")

stems : (get_file_stem (codes "lib/io.ep") ≡ codes "io") × (get_file_dir (codes "io") ≡ codes "./")
unfolding get_file_stem get_file_dir
stems = (refl, refl)
