-- ===== src/Tests/Command.antt =====
-- The commands: their arguments, and an operator who imports and removes packages.
use aurforge.Common.{
  pos, atoi, digits, digits_onto, Text, codes, text_eq, true, false, [], ◌∷◌, ◌++◌, some, ◌≡◌, ◌↔◌,
  refl, split, join, has_prefix, trim_space, map, List, contains,
}
use aurforge.Store.{PackageVersion, source_kind_of}
use aurforge.Session.{
  Session, now, perform, is_absent, begin, commit, query, execute, insert, client_query, moment,
}
use aurforge.Session.Ensures.{Ensures}
use aurforge.Config.{config_of}
use aurforge.Registry.{
  create_package, find_package, has_name, find_version, has_revision, insert_package, skip_waiting,
  is_waiting_for, insert_version, insert_job, metadata_of, is_other_version, update_package,
}
use aurforge.Tree.{hash_tree, hash_input, walk, sort_found, insert_found, stream, is_build_artifact}
use aurforge.Host.{abs_path}
use aurforge.Host.Paths.{clean, clean_parts, push_parts, push_part, is_abs, join_path}
use aurforge.Package.Srcinfo.{
  parse_package, dep_name, parse_srcinfo, srcinfo_lines, srcinfo_field, set_base, require_name,
  before_marker, complete, complete_named,
}
use aurforge.Import.{audit, audit_package}
use aurforge.Import.Local.{
  preview_local, local_path, below_root, preview_folder, prompt_confirm, is_agreed,
}
use aurforge.Accept.{accept_local}
use aurforge.Accept.Chain.{KeepsHistory}
use aurforge.Command.Flags.{
  flag_of, AddArgs, no_args, parsed, refused, missing_index, parse_add, parse_remove, Dispatch,
  dispatch, dispatch_command,
}
use aurforge.Command.Flags.Written.{IsRead, parse_add_iff}
use aurforge.Command.Output.{preview_lines, listed, show_preview, ask, print_line, print_lines}
use aurforge.Command.Add.{AurResult, Outside, add, add_from, add_local, import_local}
use aurforge.Command.Add.Chosen.{IsChosen, select_result-IsChosen}
use aurforge.Command.Add.Outcome.{Added, Broken}
use aurforge.Command.Add.Imported.{add-Added, add-KeepsHistory}
use aurforge.Command.Remove.{remove}
use aurforge.Command.Remove.Removed.{IsSettled, remove-IsSettled}
use aurforge.Tests.Worker.{cfg, reliable, starting, one_due}
use aurforge.Tests.Local.{workplace}
use aurforge.Tests.Graph.{two_packages}

abbrev local_args : List Text
local_args = codes "-l" ∷ codes "demo" ∷ codes "--select" ∷ codes "+2" ∷ codes "-y" ∷ []

abbrev read_args : AddArgs
read_args = record { yes = true; local_dir = codes "demo"; select_index = pos 2; query_parts = [] }

local_args_read : parse_add local_args no_args ≡ parsed read_args
unfolding parse_add flag_of text_eq atoi digits digits_onto
local_args_read = refl

no_index_refused : parse_add (codes "tool" ∷ codes "--select" ∷ []) no_args ≡ refused missing_index
unfolding parse_add flag_of text_eq
no_index_refused = refl

parse_add_iff_example :
    (parse_add local_args no_args ≡ parsed read_args) ↔ IsRead local_args no_args read_args
parse_add_iff_example = parse_add_iff local_args no_args read_args

updated : dispatch (codes "update" ∷ codes "tool" ∷ []) ≡ Dispatch.add (codes "tool" ∷ [])
unfolding dispatch dispatch_command text_eq
updated = refl

abbrev tools : List AurResult
tools =
    record { name = codes "app"; version = codes "1"; description = codes "an app" }
    ∷ record { name = codes "lib"; version = codes "2"; description = codes "a library" }
    ∷ []

select_result-IsChosen_example : IsChosen starting tools (pos 2)
select_result-IsChosen_example = select_result-IsChosen (pos 2) tools starting

-- The operator answers every question with yes.
abbrev outside : Outside
outside = record {
  line = λ n. some (codes "yes");
  place = workplace;
  search = λ query. some tools;
  world = two_packages;
  fuel = 3;
  committed_at = λ directory. some 40;
}

abbrev revisions : Session → List Text
revisions s = map (λ (v : PackageVersion). v.revision) s.committed.versions

local_added :
    revisions (add reliable cfg outside local_args starting).1
    ≡ codes "00" ∷ (codes "PKGBUILD" ++ 0 ∷ codes "b") ∷ []
unfolding add parse_add flag_of text_eq atoi digits digits_onto add_from add_local import_local
    prompt_confirm is_agreed trim_space client_query perform is_absent now moment preview_local
    local_path below_root preview_folder parse_package parse_srcinfo srcinfo_lines srcinfo_field
    set_base require_name dep_name before_marker complete complete_named hash_tree hash_input walk
    sort_found insert_found stream is_build_artifact contains abs_path clean clean_parts push_parts
    push_part is_abs join_path has_prefix split join audit_package audit accept_local create_package
    begin commit query execute insert find_package has_name find_version has_revision insert_package
    insert_version insert_job metadata_of is_other_version source_kind_of skip_waiting
    is_waiting_for config_of preview_lines listed show_preview ask print_line print_lines
    update_package
local_added = refl

add-Added_example :
    Ensures
      (add reliable cfg outside (codes "tool" ∷ []))
      starting
      (λ _ t.
        (a : AddArgs) × (parse_add (codes "tool" ∷ []) no_args ≡ parsed a)
        × Added cfg outside a one_due t.committed)
      (λ t. Broken cfg outside (parse_add (codes "tool" ∷ []) no_args) one_due t.committed)
add-Added_example = add-Added reliable cfg outside (codes "tool" ∷ []) starting

add-KeepsHistory_example :
    Ensures
      (add reliable cfg outside local_args)
      starting
      (λ _ t. KeepsHistory one_due t.committed)
      (λ t. KeepsHistory one_due t.committed)
add-KeepsHistory_example = add-KeepsHistory reliable cfg outside local_args starting

remove-IsSettled_example :
    Ensures
      (remove reliable outside.line (codes "demo" ∷ []))
      starting
      (λ _ t.
        IsSettled outside.line
          (parse_remove (codes "demo" ∷ []) false []).0
          (parse_remove (codes "demo" ∷ []) false []).1
          one_due
          t.committed)
      (λ t. t.committed ≡ one_due)
remove-IsSettled_example = remove-IsSettled reliable outside.line (codes "demo" ∷ []) starting
