-- ===== src/Tree/Copied.antt =====
-- CopyTree of internal/package.go keeps what HashTree hashes.
use aurforge.Common.{
  Text, Bool, true, false, List, [], Option, none, some, ◌≡◌, refl, sym, ◌∙◌, ap, subst,
  if◌then◌else◌, Bool-cases, inl, inr, false≢true, and_then,
}
use aurforge.Tree.{
  Tree, file, link, dir, Entries, end, entry, is_build_artifact, is_git, below, Found, walk,
  walk_entries, Copy, left_out, refused, copied, Copies, refused_all, copied_all, copied_file,
  copied_dir, and_copies, copy, copy_entries, copy_tree, hash_input, hash_tree, stream, sort_found,
}

-- A root that holds a file or a link named .git is left out of what follows: it is hashed, and is
-- not copied.
abbrev pub is_plain_git : Text → Tree → Bool
is_plain_git name (dir es) = false
is_plain_git name _ = is_git name

abbrev pub HasNoGitFile : Entries → Type 0
HasNoGitFile end = Unit
HasNoGitFile (entry name child es) = (is_plain_git name child ≡ false) × HasNoGitFile es

-- Files of a tree that was copied are found again, with the same content.
abbrev Keeps : Text → Text → Tree → Copy → Type 0
Keeps name path t refused = Unit
Keeps name path t left_out = (rest : List Found) → walk name path t rest ≡ rest
Keeps name path t (copied u) = (rest : List Found) → walk name path u rest ≡ walk name path t rest

abbrev KeepsAll : Text → Entries → Copies → Type 0
KeepsAll path es refused_all = Unit
KeepsAll path es (copied_all us) =
    (rest : List Found) → walk_entries path us rest ≡ walk_entries path es rest

file-Keeps :
    (name path : Text) (content : Option Text)
    → Keeps name path (file content) (copied_file name content)
unfolding walk
file-Keeps name path none = elim (Bool-cases (is_build_artifact name)) [
  | inl e ↦ rw e (λ rest. rw e refl)
  | inr e ↦ rw e tt
]
file-Keeps name path (some content) = elim (Bool-cases (is_build_artifact name)) [
  | inl e ↦ rw e (λ rest. rw e refl)
  | inr e ↦ rw e (λ rest. refl)
]

link-Keeps :
    (name path : Text) (content : Option Text)
    → Keeps name path (link content) (if is_build_artifact name then left_out else refused)
unfolding walk
link-Keeps name path content = elim (Bool-cases (is_build_artifact name)) [
  | inl e ↦ rw e (λ rest. rw e refl)
  | inr e ↦ rw e tt
]

dir-Keeps :
    (name path : Text) (es : Entries) (c : Copies)
    → KeepsAll path es c
    → Keeps name path (dir es) (copied_dir c)
unfolding walk
dir-Keeps name path es refused_all h = tt
dir-Keeps name path es (copied_all us) h =
    λ rest. elim (Bool-cases (is_git name)) [ inl e ↦ rw e refl | inr e ↦ rw e (h rest) ]

and_copies-Keeps :
    (name path : Text) (child : Tree) (es : Entries) (c : Copy) (r : Copies)
    → Keeps name (below path name) child c
    → KeepsAll path es r
    → KeepsAll path (entry name child es) (and_copies name c r)
unfolding walk
and_copies-Keeps name path child es refused r hc hr = tt
and_copies-Keeps name path child es left_out refused_all hc hr = tt
and_copies-Keeps name path child es left_out (copied_all us) hc hr = λ rest. hr rest ∙ sym (hc _)
and_copies-Keeps name path child es (copied u) refused_all hc hr = tt
and_copies-Keeps name path child es (copied u) (copied_all us) hc hr =
    λ rest. hc _ ∙ ap (walk name (below path name) child) (hr rest)

mutual
  unfolding copy

  copy-Keeps : (t : Tree) (name path : Text) → Keeps name path t (copy name t)
  copy-Keeps (file content) name path = file-Keeps name path content
  copy-Keeps (link content) name path = link-Keeps name path content
  copy-Keeps (dir es) name path =
      dir-Keeps name path es (copy_entries false es) (copy_entries-KeepsAll es path)

  copy_entries-KeepsAll : (es : Entries) (path : Text) → KeepsAll path es (copy_entries false es)
  copy_entries-KeepsAll end path = λ rest. refl
  copy_entries-KeepsAll (entry name child es) path =
      and_copies-Keeps name path child es (copy name child) (copy_entries false es)
        (copy-Keeps child name (below path name)) (copy_entries-KeepsAll es path)

-- The git directory of the root is left out of the copy, and is not hashed.
git-KeepsAll :
    (name path : Text) (child : Tree) (es : Entries) (r : Copies)
    → is_git name ≡ true
    → is_plain_git name child ≡ false
    → KeepsAll path es r
    → KeepsAll path (entry name child es) r
unfolding walk
git-KeepsAll name path child es refused_all g p h = tt
git-KeepsAll name path (file content) es (copied_all us) g p h = absurd (false≢true (sym p ∙ g))
git-KeepsAll name path (link content) es (copied_all us) g p h = absurd (false≢true (sym p ∙ g))
git-KeepsAll name path (dir ds) es (copied_all us) g p h = λ rest. rw g (h rest)

root-KeepsAll : (es : Entries) → HasNoGitFile es → KeepsAll [] es (copy_entries true es)
unfolding copy
root-KeepsAll end h = λ rest. refl
root-KeepsAll (entry name child es) (p, h) = elim (Bool-cases (is_git name)) [
  | inl e ↦ rw e (git-KeepsAll name [] child es (copy_entries true es) e p (root-KeepsAll es h))
  | inr e ↦ rw e (
      and_copies-Keeps name [] child es (copy name child) (copy_entries true es)
        (copy-Keeps child name (below [] name)) (root-KeepsAll es h))
]

-- Unless the root holds a file or a link named .git, the copy that CopyTree makes of a directory
-- gives the digest of that directory.
pub hash_tree-copy_tree :
    (digest : Text → Text) (es us : Entries)
    → HasNoGitFile es
    → copy_tree es ≡ copied_all us
    → hash_tree digest us ≡ hash_tree digest es
unfolding copy_tree hash_tree hash_input
hash_tree-copy_tree digest es us h e =
    let same = subst (KeepsAll [] es) e (root-KeepsAll es h) [] in
    ap (λ fs. hash_found digest fs) same
  where
    hash_found : (Text → Text) → List Found → Option Text
    hash_found d fs = and_then (stream (sort_found fs)) (λ bytes. some (d bytes))
