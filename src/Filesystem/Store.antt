-- ===== src/Filesystem/Store.antt =====
-- The structures of kernel/includes/filesystem.h, by address.
use torch_os.Base.{ℕ, ◌==◌, if◌then◌else◌, List, Option, none, some, Outcome, ok, hang}

abbrev pub null : ℕ
null = 0

pub record File : Type 0 where
  pub offset : ℕ
  pub buffer : ℕ
  pub canonical_size : ℕ
  pub allocated_size : ℕ

pub record Directory : Type 0 where
  pub head : ℕ
  pub size : ℕ
  pub parent : ℕ

-- The union, with the `type` that tells its members apart.
pub data Content : Type 0 where
  fs_file : File → Content
  fs_directory : Directory → Content

-- What a function pointer that is not null points to: the ramdisk's is the only implementation.
pub data Driver : Type 0 where
  ramdisk : Driver

-- `fs_node_t`; `name` is the text that its array holds.
pub record Node : Type 0 where
  pub name : List ℕ
  pub content : Content
  pub read : Option Driver
  pub write : Option Driver
  pub seek : Option Driver

-- `fs_dirent_t`
pub record Dirent : Type 0 where
  pub node : ℕ
  pub next : ℕ

pub record Filesystem (S : Type 0) : Type 0 where
  pub memory : S
  pub nodes : ℕ → Option Node
  pub dirents : ℕ → Option Dirent
  pub root : ℕ

found : {A : Type 0} → Option A → Outcome A
found none = hang
found (some a) = ok a

-- An address without a node, or without an entry, is a page fault.
unfoldable pub load_node : {S : Type 0} → ℕ → Filesystem S → Outcome Node
unfolding found
load_node p s = if p == null then hang else found (s.nodes p)

unfoldable pub load_dirent : {S : Type 0} → ℕ → Filesystem S → Outcome Dirent
unfolding found
load_dirent p s = if p == null then hang else found (s.dirents p)

unfoldable pub put_node : {S : Type 0} → ℕ → Node → Filesystem S → Filesystem S
put_node p n s = record s { nodes = λ a. if a == p then some n else s.nodes a }

unfoldable pub put_dirent : {S : Type 0} → ℕ → Dirent → Filesystem S → Filesystem S
put_dirent p d s = record s { dirents = λ a. if a == p then some d else s.dirents a }
