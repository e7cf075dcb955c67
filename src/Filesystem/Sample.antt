-- ===== src/Filesystem/Sample.antt =====
-- A small machine with a ramdisk, to run the file system on.
use torch_os.Base.{◌+◌, [], ◌==◌, if◌then◌else◌, none, some, ok}
use torch_os.Hardware.Ram.{Ram, load32, store32}
use torch_os.Memory.Allocator.{Allocator}
use torch_os.Filesystem.Store.{Directory, fs_directory, ramdisk, Node, Filesystem}

abbrev pub none_listed : Directory
none_listed = record { head = 0; size = 0; parent = 0 }

abbrev pub root_node : Node
root_node = record {
  name = [];
  content = fs_directory none_listed;
  read = some ramdisk;
  write = some ramdisk;
  seek = some ramdisk;
}

-- An allocator whose pointer is the word at 0, and an image at 100 with one file of one character.
abbrev pub bumping : Allocator Ram
bumping = record { kalloc = λ size m. ok (load32 m 0, store32 m 0 (load32 m 0 + size)) }

abbrev pub image : Ram
image a =
    if a == 1
    then 16
    else if a == 100
    then 1
    else if a == 104
    then b'k'
    else if a == 232
    then b'v'
    else if a == 240
    then 100
    else if a == 244
    then 233
    else 0

abbrev pub rootless : Filesystem Ram
rootless = record {
  memory = image;
  nodes = λ a. if a == 32 then some (root_node) else none;
  dirents = λ a. none;
  root = 32;
}
