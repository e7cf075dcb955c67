-- ===== src/Filesystem/Nodes.antt =====
-- kernel/filesystem.c: new nodes, and the list of a directory's entries.
use torch_os.Base.{
  ℕ, zero, suc, ◌+◌, ◌*◌, ◌^◌, List, some, ◌==◌, if◌then◌else◌, add32, Outcome, ok, panic,
  out_of_fuel, ◌>>=◌, ◌>>◌,
}
use torch_os.Memory.Allocator.{Allocator}
use torch_os.Filesystem.Store.{
  null, Directory, Content, fs_file, fs_directory, ramdisk, Node, Filesystem, load_node,
  load_dirent, put_node, put_dirent,
}

as_directory : Content → Outcome Directory
as_directory (fs_directory d) = ok d
as_directory (fs_file f) = panic "Trying to add an entry to a node that this not a directory!"

as_file : Content → Outcome (Unit {0})
as_file (fs_file f) = ok tt
as_file (fs_directory d) = panic "Trying to add an entry that is not a file!"

-- `fs_node_type_t`
pub data NodeType : Type 0 where
  file_type directory_type : NodeType

-- `sizeof(fs_node_t)`: the name, the type, five pointers, and the union.
abbrev pub node_size : ℕ
node_size = 128 + 4 + 5 * 4 + 16

abbrev pub dirent_size : ℕ
dirent_size = 8

abbrev pub default_file_size : ℕ
default_file_size = 256

-- A walk along a list passes each of the 2 ^ 32 addresses at most once.
abbrev pub addresses : ℕ
addresses = 2 ^ 32

-- The entry behind which `while (current->next != NULL)` stops.
unfoldable pub last_dirent : {S : Type 0} → (fuel current : ℕ) → Filesystem S → Outcome ℕ
last_dirent zero current s = out_of_fuel
last_dirent (suc fuel) current s = do
  d ← load_dirent current s
  let rest = last_dirent fuel d.next s
  if d.next == null then ok current else rest

-- `current->next = entry`
unfoldable pub link_dirent :
    {S : Type 0} → (current entry : ℕ) → Filesystem S → Outcome (Filesystem S)
link_dirent current entry s = do
  d ← load_dirent current s
  ok (put_dirent current (record d { next = entry }) s)

module _ {S : Type 0} (allocator : Allocator S) where
  open allocator use {kalloc}

  allocate : ℕ → Filesystem S → Outcome (ℕ × Filesystem S)
  allocate size s = do
    (address, memory) ← kalloc size s.memory
    ok (address, record s { memory = memory })

  -- The content of a new node: a file gets a buffer.
  new_content : NodeType → Filesystem S → Outcome (Content × Filesystem S)
  unfolding allocate
  new_content file_type s = do
    (buffer, s1) ← allocate default_file_size s
    ok (
      fs_file (record {
        offset = 0;
        buffer = buffer;
        canonical_size = 0;
        allocated_size = default_file_size;
      }),
      s1,
    )
  new_content directory_type s =
      ok (fs_directory (record { head = null; size = 0; parent = null }), s)

  -- A name of 128 characters or more would run over into the fields behind it.
  unfoldable pub fs_construct_node :
      (name : List ℕ) → NodeType → Filesystem S → Outcome (ℕ × Filesystem S)
  unfolding allocate new_content
  fs_construct_node name type s = do
    (node, s1) ← allocate node_size s
    (content, s2) ← new_content type s1
    let n : Node = record {
      name = name;
      content = content;
      read = some ramdisk;
      write = some ramdisk;
      seek = some ramdisk;
    }
    ok (node, put_node node n s2)

  -- The list's head with a new entry for `file`: the first one, or one behind the last.
  first_entry : (file : ℕ) → Filesystem S → Outcome (ℕ × Filesystem S)
  unfolding allocate
  first_entry file s = do
    (entry, s1) ← allocate dirent_size s
    ok (entry, put_dirent entry (record { node = file; next = null }) s1)

  further_entry : (file head : ℕ) → Filesystem S → Outcome (ℕ × Filesystem S)
  unfolding allocate link_dirent
  further_entry file head s = do
    current ← last_dirent addresses head s
    (entry, s1) ← allocate dirent_size s
    s2 ← link_dirent current entry s1
    ok (head, put_dirent entry (record { node = file; next = null }) s2)

  add_entry : (directory file : ℕ) → Node → Directory → Filesystem S → Outcome (Filesystem S)
  unfolding first_entry further_entry
  add_entry directory file n d s = do
    (head, s1) ← if d.head == null then first_entry file s else further_entry file d.head s
    let longer = record d { head = head; size = add32 d.size 1 }
    ok (put_node directory (record n { content = fs_directory longer }) s1)

  -- The two tests of the nodes' types, then the entry.
  unfoldable pub fs_add_dirent : (directory file : ℕ) → Filesystem S → Outcome (Filesystem S)
  unfolding add_entry as_directory as_file
  fs_add_dirent directory file s = do
    n ← load_node directory s
    d ← as_directory n.content
    f ← load_node file s
    as_file f.content
    add_entry directory file n d s
