-- ===== src/Fs/File.antt =====
-- fs/fs.hpp and fs/dir_reader.cpp: the interface of a file, and the files of a directory. What the
-- file system answers is an argument. A file's time and size are asked for once.
use lambda.Base.{
  ℕ, ◌-◌, Bool, true, false, not, ◌||◌, [], Option, none, some, Bytes, codes, ltb, leb, ◌==◌,
  if◌then◌else◌, take, drop, is_empty, starts_with, Result, ok, err, Error,
}

-- The virtual functions of StaticFile.
pub record StaticFile : Type 0 where
  pub name : Bytes
  pub is_directory : Bool
  pub modified : ℕ
  pub size : ℕ
  pub content : Result Bytes
  pub part : ℕ → ℕ → Result Bytes

-- FsDirectoryFile: a stream with the bytes that it can read, none for a directory.
pub record DirectoryFile : Type 0 where
  pub stream : Option Bytes
  pub is_open : Bool
  pub resolved_path : Bytes
  pub last_write_time : ℕ
  pub file_size : ℕ

abbrev pub modified_of : DirectoryFile → ℕ
modified_of f = elim f.stream [ none ↦ 0 | some bytes ↦ f.last_write_time ]

abbrev pub size_of : DirectoryFile → ℕ
size_of f = elim f.stream [ none ↦ 0 | some bytes ↦ f.file_size ]

-- The part is read into a buffer of the range's length; an end below the beginning wraps, and no
-- buffer is that long.
abbrev read_part : Bytes → ℕ → ℕ → Result Bytes
read_part bytes begin end =
    if end == begin
    then ok []
    else if ltb end begin
    then err Error.buffer_too_long
    else ok (take (end - begin) (drop begin bytes))

unfoldable pub content_part : DirectoryFile → ℕ → ℕ → Result Bytes
content_part f begin end = elim f.stream [
  | none ↦ ok []
  | some bytes ↦
      let from = if leb end begin then 0 else begin in
      let to = if ltb (size_of f) end || ltb end from then size_of f else end in
      if not f.is_open then ok [] else read_part bytes from to
]

-- A directory file as the interface.
unfoldable pub static_file : DirectoryFile → StaticFile
unfolding content_part
static_file f = record {
  name = f.resolved_path;
  is_directory = elim f.stream [ none ↦ true | some bytes ↦ false ];
  modified = modified_of f;
  size = size_of f;
  content = content_part f 0 (size_of f);
  part = content_part f;
}

-- What a path leads to.
pub data DiskEntry : Type 0 where
  missing other directory : DiskEntry
  regular : DirectoryFile → DiskEntry

abbrev folder : Bytes → DirectoryFile
folder path = record {
  stream = none;
  is_open = false;
  resolved_path = path;
  last_write_time = 0;
  file_size = 0;
}

-- The file system, `lexically_normal` of a path, and `/` of two paths.
module _ (disk : Bytes → DiskEntry) (lexically_normal : Bytes → Bytes)
    (join : Bytes → Bytes → Bytes) where
  -- The constructor of DirReader, which keeps the root.
  unfoldable pub new_reader : Bytes → Result Bytes
  new_reader root_dir =
      let root = if is_empty root_dir then codes "./" else root_dir in
      elim (disk root) [
        | DiskEntry.missing ↦ err Error.root_missing
        | DiskEntry.directory ↦ ok root
        | _ ↦ err Error.root_not_directory
      ]

  unfoldable pub open_file : Bytes → Bytes → Option DirectoryFile
  open_file root filename =
      let file_path = lexically_normal filename in
      let absolute = starts_with (codes "/") file_path || starts_with (codes "\\") file_path in
      let resolved = join root (if absolute then drop 1 file_path else file_path) in
      elim (disk resolved) [
        | DiskEntry.regular file ↦ some file
        | DiskEntry.directory ↦ some (folder resolved)
        | _ ↦ none
      ]
