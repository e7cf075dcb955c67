-- ===== src/Filesystem/Tests.antt =====
-- The file system's theorems at work on a file of five bytes and a directory of two entries.
use torch_os.Base.{
  ℕ, ◌≡◌, inl, inr, refl, arith, List, [], ◌∷◌, ◌++◌, ◌==◌, if◌then◌else◌, none, some, ok,
}
use torch_os.Hardware.Ram.{Ram}
use torch_os.Hardware.Bus.{flat}
use torch_os.Memory.Allocator.{Allocator}
use torch_os.Filesystem.{fs_read, fs_write}
use torch_os.Filesystem.Store.{null, File, Directory, fs_directory, ramdisk, Node, Filesystem}
use torch_os.Filesystem.Nodes.{fs_add_dirent}
use torch_os.Filesystem.Files.{
  IsFile, file_node, after_write, Written, fs_write-Written, Reads, fs_read-Reads,
}
use torch_os.Filesystem.RoundTrip.{SameText, write_and_read, write_and_read-IsFile}
use torch_os.Filesystem.Directories.{
  dirent, IsDirectory, IsFileNode, Added, SameNodes, fs_add_dirent-Added,
}
use torch_os.Hardware.Ram.{store8}

abbrev file : File
file = record { offset = 2; buffer = 1000; canonical_size = 5; allocated_size = 256 }

abbrev listing : Directory
listing = record { head = 40; size = 2; parent = 0 }

abbrev listing_node : Node
listing_node = record {
  name = [];
  content = fs_directory listing;
  read = some ramdisk;
  write = some ramdisk;
  seek = some ramdisk;
}

-- The file is at 16, the directory at 32, and its entries are at 40 and 48.
abbrev system : Filesystem Ram
system = record {
  memory = λ b. b;
  nodes = λ a.
      if a == 16 then some (file_node [] file) else if a == 32 then some listing_node else none;
  dirents =
      λ a. if a == 40 then some (dirent 16 48) else if a == 48 then some (dirent 16 null) else none;
  root = 32;
}

abbrev fixed : Allocator Ram
fixed = record { kalloc = λ size m. ok (56, m) }

file-IsFile : IsFile system 16 [] file
file-IsFile = record { address = omega arith; there = refl }

fs_write-Written_example : Written system 16 [] file 4 9000 (fs_write flat 16 4 9000 system)
fs_write-Written_example =
    fs_write-Written system 16 4 9000 file [] file-IsFile (omega arith) (inl (omega arith))

fs_read-Reads_example : Reads system 16 [] file 3 9000 (fs_read flat 16 3 9000 system)
fs_read-Reads_example =
    fs_read-Reads system 16 3 9000 file [] file-IsFile (omega arith) (inr (omega arith))

write_and_read-IsFile_example :
    (s' : Filesystem Ram) × (write_and_read 16 4 8 9000 9100 system ≡ ok (8, s'))
    × IsFile s' 16 [] (after_write (record file { offset = 4 }) 8)
    × SameText system.memory 9000 s'.memory 9100 8
write_and_read-IsFile_example =
    write_and_read-IsFile system 16 4 8 9000 9100 file [] file-IsFile (omega arith) (omega arith)
      (omega arith) (omega arith) (inl (omega arith)) (inr (omega arith))

abbrev entries : List (ℕ × ℕ)
entries = (40, 16) ∷ (48, 16) ∷ []

listing-IsDirectory : IsDirectory system 32 listing_node listing entries
listing-IsDirectory = record {
  address = omega arith;
  there = refl;
  lists = (refl, omega arith, (48, refl, (refl, omega arith, (null, refl, refl))));
  apart = ((omega arith, tt), (tt, tt));
}

file-IsFileNode : IsFileNode system 16 (file_node [] file) file
file-IsFileNode = record { address = omega arith; there = refl }

fs_add_dirent-Added_example :
    (s' : Filesystem Ram) × (fs_add_dirent fixed 32 16 system ≡ ok s')
    × Added s' 32 listing_node listing (entries ++ (56, 16) ∷ [])
    × (s'.memory ≡ system.memory)
    × SameNodes system s' 32
    × (s'.root ≡ 32)
fs_add_dirent-Added_example =
    fs_add_dirent-Added fixed system 32 16 56 listing_node (file_node [] file) listing file entries
      system.memory listing-IsDirectory file-IsFileNode (omega arith) refl (omega arith)
      (omega arith, (omega arith, tt))

-- An allocator that always gives the same block.
abbrev two_blocks : Allocator Ram
two_blocks = record { kalloc = λ size m. ok (700, m) }

abbrev hello : Ram → Ram
hello m = store8 (store8 (store8 (store8 (store8 m 500 b'H') 501 b'e') 502 b'l') 503 b'l') 504 b'o'
