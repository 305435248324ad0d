-- ===== src/Config/Runs.antt =====
-- ConfigMgr and Logger on small files.
use namecon.Common.{◌≡◌, refl, List, [], ◌∷◌, ◌++◌, some, arith}
use namecon.Common.Bytes.{Bytes}
use namecon.Common.Text.{ascii, lines, bytes_eq}
use namecon.Config.{
  get, section, load, load_lines, load_line, trim, trim_left, trim_right, cut_comment, bracketed,
  last_is, drop_last, split_eq, unquote, store, put, put_key, Loading,
}
use namecon.Config.RoundTrip.{Entries, IsConfig, print_config, latest, load-print_config}
use namecon.Config.Comments.{commented_header, commented_header_ignored}
use namecon.Config.Logging.{init, level_of, strip_quotes, warn}

abbrev text : Bytes
text =
    ascii "; ports"
    ++ 10
      ∷ (ascii "[server]"
          ++ 10 ∷ (ascii "  grpc_port = 50051 # rpc" ++ 10 ∷ ascii "name = \"a b\""))

port_read : get (ascii "grpc_port") (section (ascii "server") (load (some text) [])) ≡ ascii "50051"
unfolding get section load lines load_lines load_line trim trim_left trim_right cut_comment
    bracketed last_is drop_last split_eq unquote store put put_key bytes_eq
port_read = refl

name_read : get (ascii "name") (section (ascii "server") (load (some text) [])) ≡ ascii "a b"
unfolding get section load lines load_lines load_line trim trim_left trim_right cut_comment
    bracketed last_is drop_last split_eq unquote store put put_key bytes_eq
name_read = refl

level_read : (init ((ascii "log_level", ascii "\"warn\"") ∷ [])).level ≡ warn
unfolding init get bytes_eq strip_quotes last_is drop_last level_of
level_read = refl

abbrev one_entry : List (Bytes × Entries)
one_entry = (ascii "s", (ascii "k", ascii "v w") ∷ []) ∷ []

one_entry-IsConfig : IsConfig one_entry
unfolding trim trim_left trim_right cut_comment
one_entry-IsConfig = (
  (
    cc,
    record { no_comment = (refl, tt); no_lf = omega arith },
    (
      (
        record {
          trimmed = refl;
          starts = refl;
          not_empty = cc;
          no_header = refl;
          no_eq = omega arith;
          no_comment = (refl, tt);
          no_lf = omega arith;
        },
        record { no_comment = (refl, (refl, (refl, tt))); no_lf = omega arith },
      ),
      tt,
    ),
  ),
  tt,
)

load-print_config_example :
    get (ascii "k") (section (ascii "s") (load (some (print_config one_entry)) []))
    ≡ latest (ascii "s") (ascii "k") one_entry (get (ascii "k") (section (ascii "s") []))
load-print_config_example =
    load-print_config one_entry [] (ascii "s") (ascii "k") one_entry-IsConfig

abbrev in_server : Loading
in_server = record { current_section = ascii "server"; config_map = [] }

commented_header_ignored_example :
    load_line (commented_header 35 (ascii "log") (ascii " files")) in_server ≡ in_server
commented_header_ignored_example =
    commented_header_ignored 35 (ascii "log") (ascii " files") in_server refl
      (refl, (refl, (refl, tt))) (omega arith)
