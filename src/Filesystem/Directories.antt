-- ===== src/Filesystem/Directories.antt =====
-- `fs_add_dirent` puts a file at the end of a directory's list.
use torch_os.Base.{
  ℕ, zero, suc, ◌^◌, ◌<◌, ◌≡◌, ◌≢◌, refl, sym, ap, ◌∙◌, arith, false, ◌==◌, List, [], ◌∷◌, ◌++◌,
  length, add32, some, Option, ok,
}
use torch_os.Memory.Allocator.{Allocator}
use torch_os.Filesystem.Store.{
  null, File, Directory, fs_file, fs_directory, Node, Dirent, Filesystem, load_node, load_dirent,
  put_node, put_dirent,
}
use torch_os.Filesystem.Nodes.{last_dirent, link_dirent, addresses, dirent_size, fs_add_dirent}

abbrev pub Dirents : Type 0
Dirents = ℕ → Option Dirent

abbrev pub dirent : ℕ → ℕ → Dirent
dirent file next = record { node = file; next = next }

-- From `p` the entries at the addresses `a`, in order, lead to the files `f`, and the list ends.
abbrev pub Lists : Dirents → ℕ → List (ℕ × ℕ) → Type 0
Lists m p [] = p ≡ null
Lists m p ((a, f) ∷ rest) =
    (p ≡ a) × (a ≢ null) × ((q : ℕ) × (m a ≡ some (dirent f q)) × Lists m q rest)

-- No entry stands at `e`.
abbrev pub Fresh : ℕ → List (ℕ × ℕ) → Type 0
Fresh e [] = Unit {0}
Fresh e ((a, f) ∷ rest) = (e ≢ a) × Fresh e rest

abbrev pub Apart : List (ℕ × ℕ) → Type 0
Apart [] = Unit {0}
Apart ((a, f) ∷ rest) = Fresh a rest × Apart rest

abbrev last_of : ℕ → List (ℕ × ℕ) → ℕ
last_of a [] = a
last_of a ((b, f) ∷ rest) = last_of b rest

module _ {S : Type 0} where
  pub load_dirent-ok :
      (s : Filesystem S) (p : ℕ) (d : Dirent)
      → p ≢ null
      → s.dirents p ≡ some d
      → load_dirent p s ≡ ok d
  unfolding load_dirent
  load_dirent-ok s p d ne there = let test : (p == null) ≡ false = ground arith in rw (test, there)

  -- The walk to the last entry ends there.
  last_dirent-Lists :
      (fuel a f : ℕ) (rest : List (ℕ × ℕ)) (s : Filesystem S)
      → Lists s.dirents a ((a, f) ∷ rest)
      → length rest < fuel
      → last_dirent fuel a s ≡ ok (last_of a rest)
  unfolding last_dirent
  last_dirent-Lists zero a f rest s l enough = absurd (omega arith)
  last_dirent-Lists (suc fuel) a f [] s (_, ne, (q, there, end)) enough =
      rw (load_dirent-ok s a (dirent f q) ne there, end)
  last_dirent-Lists (suc fuel) a f ((b, g) ∷ rest) s (_, ne, (q, there, (at, ne', more))) enough =
      let test : (b == null) ≡ false = ground arith in
      rw (load_dirent-ok s a (dirent f q) ne there, at, test)
        (last_dirent-Lists fuel b g rest s (refl, ne', more) (omega arith))

-- Stores that agree on the entries of a list.
Lists-same :
    (m m' : Dirents) (e p : ℕ) (es : List (ℕ × ℕ))
    → ((a : ℕ) → a ≢ e → m' a ≡ m a)
    → Fresh e es
    → Lists m p es
    → Lists m' p es
Lists-same m m' e p [] same fresh l = l
Lists-same m m' e p ((a, f) ∷ rest) same fresh (at, ne, (q, there, more)) =
    (at, ne, (q, same a (λ x. fresh.0 (sym x)) ∙ there, Lists-same m m' e q rest same fresh.1 more))

abbrev last_file : ℕ → List (ℕ × ℕ) → ℕ
last_file f [] = f
last_file f ((b, g) ∷ rest) = last_file g rest

Lists-last :
    (m : Dirents) (a f : ℕ) (rest : List (ℕ × ℕ))
    → Lists m a ((a, f) ∷ rest)
    → (last_of a rest ≢ null) × (m (last_of a rest) ≡ some (dirent (last_file f rest) null))
Lists-last m a f [] (_, ne, (q, there, end)) = (ne, rw (← end) there)
Lists-last m a f ((b, g) ∷ rest) (_, ne, (q, there, (at, ne', more))) =
    Lists-last m b g rest (refl, ne', more)

Fresh-last : (e a f : ℕ) (rest : List (ℕ × ℕ)) → Fresh e ((a, f) ∷ rest) → e ≢ last_of a rest
Fresh-last e a f [] fresh = fresh.0
Fresh-last e a f ((b, g) ∷ rest) fresh = Fresh-last e b g rest fresh.1

-- A new entry at `e`, with the last one led on to it.
Lists-snoc :
    (m m' : Dirents) (e file a f : ℕ) (rest : List (ℕ × ℕ))
    → ((x : ℕ) → x ≢ last_of a rest → x ≢ e → m' x ≡ m x)
    → m' (last_of a rest) ≡ some (dirent (last_file f rest) e)
    → m' e ≡ some (dirent file null)
    → e ≢ null
    → Fresh e ((a, f) ∷ rest)
    → Apart ((a, f) ∷ rest)
    → Lists m a ((a, f) ∷ rest)
    → Lists m' a ((a, f) ∷ rest ++ (e, file) ∷ [])
Lists-snoc m m' e file a f [] same led new e_ne fresh apart (_, ne, (q, there, end)) =
    (refl, ne, (e, led, (refl, e_ne, (null, new, refl))))
Lists-snoc m m' e file a f ((b, g) ∷ rest) same led new e_ne fresh apart
      (_, ne, (q, there, (at, ne', more))) =
    let next =
      Lists-snoc m m' e file b g rest same led new e_ne fresh.1 apart.1 (refl, ne', more) in
    (
      refl,
      ne,
      (
        b,
        same a (Fresh-last a b g rest apart.0) (λ x. fresh.0 (sym x))
            ∙ there
            ∙ ap (λ x. some (dirent f x)) at,
        next,
      ),
    )

-- A directory whose list is `entries`.
pub record IsDirectory {S : Type 0} (s : Filesystem S) (directory : ℕ) (n : Node) (d : Directory)
    (entries : List (ℕ × ℕ)) : Type 0 where
  pub address : directory ≢ null
  pub there : s.nodes directory ≡ some (record n { content = fs_directory d })
  pub lists : Lists s.dirents d.head entries
  pub apart : Apart entries

-- A file's node.
pub record IsFileNode {S : Type 0} (s : Filesystem S) (file : ℕ) (n : Node) (f : File)
    : Type 0 where
  pub address : file ≢ null
  pub there : s.nodes file ≡ some (record n { content = fs_file f })

load_node-ok :
    {S : Type 0} (s : Filesystem S) (p : ℕ) (n : Node)
    → p ≢ null
    → s.nodes p ≡ some n
    → load_node p s ≡ ok n
unfolding load_node
load_node-ok s p n ne there = let test : (p == null) ≡ false = ground arith in rw (test, there)

-- No node but the directory's is changed.
abbrev pub SameNodes : {S : Type 0} → (s s' : Filesystem S) → (directory : ℕ) → Type 0
SameNodes s s' directory = (q : ℕ) → q ≢ directory → s'.nodes q ≡ s.nodes q

-- The directory with one more entry.
pub record Added {S : Type 0} (s' : Filesystem S) (directory : ℕ) (n : Node) (d : Directory)
    (entries : List (ℕ × ℕ)) : Type 0 where
  pub head : ℕ
  pub there :
      s'.nodes directory
      ≡ some (record n { content = fs_directory (record d { head = head; size = add32 d.size 1 }) })
  pub lists : Lists s'.dirents head entries

-- If `kalloc` gives a new address, `fs_add_dirent` of a file to a directory with fewer than 2 ^ 32
-- entries, all at different addresses, returns with the entry at the end of the list, the others
-- in their order, and the size one greater modulo 2 ^ 32; other nodes and the root are kept.
pub fs_add_dirent-Added :
    {S : Type 0} (allocator : Allocator S) (s : Filesystem S) (directory file e : ℕ) (n fn : Node)
    (d : Directory) (f : File) (entries : List (ℕ × ℕ)) (memory : S)
    → IsDirectory s directory n d entries
    → IsFileNode s file fn f
    → length entries < 2 ^ 32
    → allocator.kalloc dirent_size s.memory ≡ ok (e, memory)
    → e ≢ null
    → Fresh e entries
    → (s' : Filesystem S) × (fs_add_dirent allocator directory file s ≡ ok s')
      × Added s' directory n d (entries ++ (e, file) ∷ [])
      × (s'.memory ≡ memory)
      × SameNodes s s' directory
      × (s'.root ≡ s.root)
unfolding fs_add_dirent link_dirent put_dirent put_node
fs_add_dirent-Added allocator s directory file e n fn d f [] memory dir is_file few given e_ne
      fresh =
    let dn =
      load_node-ok s directory (record n { content = fs_directory d }) dir.address dir.there in
    let ff =
      load_node-ok s file (record fn { content = fs_file f }) is_file.address is_file.there in
    let s2 = put_dirent e (dirent file null) (record s { memory = memory }) in
    (
      put_node directory
          (record n { content = fs_directory (record d { head = e; size = add32 d.size 1 }) }) s2,
      rw (dn, ff, dir.lists, given),
      record { head = e; there = ground arith; lists = (refl, e_ne, (null, ground arith, refl)) },
      refl,
      λ q ne. ground arith,
      refl,
    )
fs_add_dirent-Added {S} allocator s directory file e n fn d f ((a, g) ∷ rest) memory dir is_file few
      given e_ne fresh =
    let dn =
      load_node-ok s directory (record n { content = fs_directory d }) dir.address dir.there in
    let ff =
      load_node-ok s file (record fn { content = fs_file f }) is_file.address is_file.there in
    let (at, a_ne, more) = dir.lists in
    let l = last_of a rest in
    let (l_ne, l_there) = Lists-last s.dirents a g rest (refl, a_ne, more) in
    let s1 : Filesystem S = record s { memory = memory } in
    let s2 = put_dirent l (dirent (last_file g rest) e) s1 in
    let s3 = put_dirent e (dirent file null) s2 in
    let test : (a == null) ≡ false = ground arith in
    let apart : l ≢ e = λ x. Fresh-last e a g rest fresh (sym x) in
    (
      put_node directory
          (record n { content = fs_directory (record d { head = a; size = add32 d.size 1 }) }) s3,
      rw (
        dn,
        ff,
        at,
        test,
        last_dirent-Lists addresses a g rest s (refl, a_ne, more) (omega arith),
        given,
        load_dirent-ok s1 l (dirent (last_file g rest) null) l_ne l_there,
      ),
      record {
        head = a;
        there = ground arith;
        lists =
            Lists-snoc s.dirents s3.dirents e file a g rest (λ x nl ne. ground arith) (ground arith)
              (ground arith) e_ne fresh dir.apart (refl, a_ne, more);
      },
      refl,
      λ q ne. ground arith,
      refl,
    )
