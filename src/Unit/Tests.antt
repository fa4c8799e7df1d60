-- ===== src/Unit/Tests.antt =====
-- A host with one unit, its drop-ins, and runs of the unit reader on it.
use plumbline.Host.{not_exist, Answer, answer, refuse, FileInfo, ReadResult, System}
use plumbline.Unit.{Request, Directive, unit_file, complete}
use plumbline.Unit.Parse.{parse}
use plumbline.Unit.Parse.Laws.{parse-Kept, Kept}
use plumbline.Unit.Read.{read_fragment}
use plumbline.Unit.Read.Laws.{read_fragment-ReadWhole, ReadWhole}
use plumbline.Unit.Assemble.{assemble, find_unit, roots, Candidate}
use plumbline.Unit.Assemble.Laws.{assemble-Wanted, assemble-is_present}
use plumbline.Unit.Assemble.Complete.{assemble-Searched, Searched}
use plumbline.Unit.Assemble.Order.{assemble-Ascending, InOrder, contributions}
use plumbline.Unit.Assemble.Shadow.{listing}
use plumbline.Unit.Parse.{is_comment, join_continued, continues}
use plumbline.Unit.Read.{not_text}
use plumbline.Go.Path.{join_two, base}
use plumbline.Go.Space.{trim_space}
use plumbline.Go.Strings.{trim_right, split, cut, has_suffix, drop_last}
use plumbline.Base.Text.{has_prefix}
use plumbline.Base.Maps.{lookup, insert, contains}
use plumbline.Base.Sorting.{sort_by}
use plumbline.Unit.Parse.Laws.{Wanted}
use Prim.Native.String.{String}
use plumbline.Base.{
  Str, codes, str_eq, str_ltb, ℕ, ◌+◌, ◌≡◌, refl, Bool, true, false, not, List, [], ◌∷◌, ◌++◌,
  if◌then◌else◌, length, All,
}

abbrev request : Request
request = record {
  name = codes "a.service";
  section = codes "Service";
  directives = codes "ExecStart" ∷ codes "Nice" ∷ [];
}

abbrev unit_text : Str
unit_text =
    codes "[Unit]\nNice=9\n[Service]\n# ExecStart=no\nExecStart=/bin/a \\\n  -x\nUser=b\nNice=1\n"

abbrev drop_in_text : Str
drop_in_text = codes "[Service]\nNice=2\n"

abbrev later_text : Str
later_text = codes "[Service]\nNice=3\n"

missing : Answer FileInfo
missing = refuse (record { class = not_exist; text = [] })

file_at : Str → Bool → ℕ → FileInfo
file_at path is_dir ino = record {
  path = path;
  mode = 420;
  uid = 0;
  gid = 0;
  size = 10;
  mod_time = 0;
  is_dir = is_dir;
  is_regular = not is_dir;
  is_symlink = false;
  dev = 1;
  ino = ino;
}

read_as : Str → Answer ReadResult
read_as text =
    answer (record { path = []; bytes = text; size = length text; truncated = false; sha256 = [] })

-- The unit is in the vendor directory, its drop-ins in the administrator's.
abbrev host : System
host = record {
  stat = λ p.
      if str_eq p (codes "/usr/lib/systemd/system/a.service")
      then answer (file_at p false 2)
      else if str_eq p (codes "/etc/systemd/system/a.service.d")
      then answer (file_at p true 3)
      else if str_eq p (codes "/etc/systemd/system/a.service.d/20.conf")
      then answer (file_at p false 4)
      else if str_eq p (codes "/etc/systemd/system/a.service.d/10.conf")
      then answer (file_at p false 5)
      else missing;
  read_file = λ p n. refuse (record { class = not_exist; text = [] });
  read_opaque = λ p n.
      if str_eq p (codes "/usr/lib/systemd/system/a.service")
      then read_as unit_text
      else if str_eq p (codes "/etc/systemd/system/a.service.d/10.conf")
      then read_as drop_in_text
      else read_as later_text;
  read_dir = λ p n. answer (record {
    path = p;
    entries =
        file_at (codes "/etc/systemd/system/a.service.d/20.conf") false 4
        ∷ file_at (codes "/etc/systemd/system/a.service.d/10.conf") false 5
        ∷ [];
    truncated = false;
  });
  read_link = λ p. refuse (record { class = not_exist; text = [] });
}

abbrev directive : String → String → String → ℕ → Directive
directive name value origin line = record {
  name = codes name;
  value = codes value;
  origin = codes origin;
  line = line;
}

parse-unit_text :
    parse unit_text (codes "u") request
    ≡ directive "ExecStart" "/bin/a -x" "u" 5 ∷ directive "Nice" "1" "u" 8 ∷ []
unfolding parse is_comment join_continued str_eq contains has_prefix trim_space split cut trim_right
    drop_last continues has_suffix
parse-unit_text = refl

-- A carriage return before a blank at the end of a continued line keeps the backslash.
parse-backslash :
    parse (codes "[Service]\nNice=1 \\\r \n2\n") (codes "u") request
    ≡ directive "Nice" "1 \\ 2" "u" 2 ∷ []
unfolding parse is_comment join_continued str_eq contains has_prefix trim_space split cut trim_right
    drop_last continues has_suffix
parse-backslash = refl

assemble-host :
    (assemble host request).directives
    ≡ directive "ExecStart" "/bin/a -x" "/usr/lib/systemd/system/a.service" 5
      ∷ directive "Nice" "1" "/usr/lib/systemd/system/a.service" 8
      ∷ directive "Nice" "2" "/etc/systemd/system/a.service.d/10.conf" 2
      ∷ directive "Nice" "3" "/etc/systemd/system/a.service.d/20.conf" 2
      ∷ []
unfolding assemble parse read_fragment file_at read_as missing find_unit complete str_eq join_two
    not_text sort_by has_suffix base lookup insert str_ltb is_comment join_continued contains
    has_prefix trim_space split cut trim_right drop_last continues
assemble-host = refl

complete-host : complete (assemble host request) ≡ true
unfolding assemble parse read_fragment file_at read_as missing find_unit complete str_eq join_two
    not_text sort_by has_suffix base lookup insert str_ltb is_comment join_continued contains
    has_prefix trim_space split cut trim_right drop_last continues
complete-host = refl

abbrev vendor_path : Str
vendor_path = codes "/usr/lib/systemd/system/a.service"

-- A host that has nothing.
abbrev bare : System
bare = record host { stat = λ p. missing }

parse-Kept_example :
    Kept request
      (codes "u")
      1
      (1 + length (split b'\n' unit_text))
      (parse unit_text (codes "u") request)
parse-Kept_example = parse-Kept unit_text (codes "u") request

read_fragment-ReadWhole_example :
    ReadWhole host vendor_path (read_fragment host vendor_path unit_file).1
unfolding assemble parse read_fragment file_at read_as missing find_unit complete str_eq join_two
    not_text sort_by has_suffix base lookup insert str_ltb is_comment join_continued contains
    has_prefix trim_space split cut trim_right drop_last continues
read_fragment-ReadWhole_example = read_fragment-ReadWhole host vendor_path unit_file refl

assemble-Wanted_example : All (Wanted request) (assemble host request).directives
assemble-Wanted_example = assemble-Wanted host request

assemble-is_present_example : (assemble bare request).directives ≡ []
unfolding assemble parse read_fragment file_at read_as missing find_unit complete str_eq join_two
    not_text sort_by has_suffix base lookup insert str_ltb is_comment join_continued contains
    has_prefix trim_space split cut trim_right drop_last continues
assemble-is_present_example = assemble-is_present bare request refl

assemble-Searched_example : Searched host request.name roots (find_unit host request.name).path
assemble-Searched_example = assemble-Searched host request complete-host

assemble-Ascending_example :
    (ws : List Candidate) × InOrder (listing host request.name [] roots) ws
    × ((assemble host request).directives
        ≡ parse (read_fragment host vendor_path unit_file).1 vendor_path request
          ++ contributions host request ws)
unfolding assemble parse read_fragment file_at read_as missing find_unit complete str_eq join_two
    not_text sort_by has_suffix base lookup insert str_ltb is_comment join_continued contains
    has_prefix trim_space split cut trim_right drop_last continues
assemble-Ascending_example = assemble-Ascending host request vendor_path refl refl
