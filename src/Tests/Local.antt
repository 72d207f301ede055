-- ===== src/Tests/Local.antt =====
-- A directory of local imports with the package demo, previewed, and refreshed by the scheduler.
use aurforge.Common.{
  Text, codes, text_eq, true, false, [], ◌∷◌, ◌++◌, Option, none, some, ◌≡◌, refl, ap, sym, split,
  join, has_prefix, trim_space, map, contains, some_inj,
}
use aurforge.Tree.{
  file, end, entry, hash_tree, hash_input, walk, sort_found, insert_found, stream,
  is_build_artifact,
}
use aurforge.Host.{abs_path}
use aurforge.Host.Paths.{clean, clean_parts, push_parts, push_part, is_abs, join_path}
use aurforge.Package.Srcinfo.{
  parse_package, dep_name, parse_srcinfo, srcinfo_lines, srcinfo_field, set_base, require_name,
  before_marker, complete, complete_named,
}
use aurforge.Import.{Preview, audit, audit_package}
use aurforge.Import.Local.{
  Folder, Workplace, preview_local, local_path, below_root, preview_folder, prompt_confirm,
  is_agreed,
}
use aurforge.Import.Local.Confined.{IsConfined, preview_local-IsConfined}

abbrev pub demo_srcinfo : Text
demo_srcinfo = codes "pkgbase = demo" ++ 10 ∷ codes "pkgver = 2"

abbrev pub demo_folder : Folder
demo_folder = record {
  has_pkgbuild = true;
  srcinfo = some demo_srcinfo;
  pkgbuild = some (codes "sudo make");
  contents = entry (codes "PKGBUILD") (file (some (codes "b"))) end;
}

-- The hash of this machine is the text itself.
abbrev pub workplace : Workplace
workplace = record {
  working_directory = some (codes "/srv");
  folder = λ path. demo_folder;
  sha256 = λ bytes. bytes;
  assignments = λ source. [];
}

abbrev preview_path : Option Preview → Option Text
preview_path none = none
preview_path (some p) = some p.path

previewed :
    preview_path (preview_local workplace (codes "/imports/") (codes "./x/../demo"))
    ≡ some (codes "/imports/demo")
unfolding preview_local local_path below_root preview_folder parse_package parse_srcinfo
    srcinfo_lines srcinfo_field set_base require_name dep_name before_marker complete complete_named
    hash_tree hash_input walk sort_found insert_found stream is_build_artifact contains abs_path
    clean clean_parts push_parts push_part is_abs join_path has_prefix split join text_eq
    audit_package audit
previewed = refl

refused : preview_local workplace (codes "/imports") (codes "../etc") ≡ none
unfolding preview_local local_path below_root preview_folder abs_path clean clean_parts push_parts
    push_part is_abs join_path has_prefix split join text_eq
refused = refl

answers :
    map
      (λ line. prompt_confirm line false)
      (some (codes " YES ") ∷ some [] ∷ some (codes "no") ∷ none ∷ [])
    ≡ some true ∷ some true ∷ some false ∷ none ∷ []
unfolding prompt_confirm is_agreed text_eq trim_space
answers = refl

abbrev demo_preview : Preview
demo_preview = record {
  info = record {
    name = codes "demo";
    version = codes "2";
    release = codes "0";
    source_kind = codes "local";
    source_ref = codes "/imports/demo";
    split_packages = codes "demo" ∷ [];
    dependencies = [];
    warnings = [];
  };
  digest = codes "PKGBUILD" ++ 0 ∷ codes "b";
  path = codes "/imports/demo";
  audit_messages = codes "PKGBUILD invokes sudo" ∷ [];
}

demo_previewed : preview_local workplace (codes "/imports") (codes "demo") ≡ some demo_preview
unfolding preview_local local_path below_root preview_folder parse_package parse_srcinfo
    srcinfo_lines srcinfo_field set_base require_name dep_name before_marker complete complete_named
    hash_tree hash_input walk sort_found insert_found stream is_build_artifact contains abs_path
    clean clean_parts push_parts push_part is_abs join_path has_prefix split join text_eq
    audit_package audit
demo_previewed = refl

rooted : (d : Text) → some (codes "/srv") ≡ some d → is_abs d ≡ true
unfolding is_abs has_prefix
rooted d h = ap is_abs (sym (some_inj h))

preview_local-IsConfined_example : IsConfined workplace (codes "/imports") demo_preview
preview_local-IsConfined_example =
    preview_local-IsConfined workplace (codes "/imports") (codes "demo") demo_preview rooted
      demo_previewed
