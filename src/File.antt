-- ===== src/File.antt =====
-- kernel-overlay/include/evl/file.h: files of the core, which out-of-band callers hold through a
-- crossing. Files, elements and tables of files are addresses.
use spacemit_xenomai.Base.{ℕ, List}
use spacemit_xenomai.Crossing.{Crossing, down_crossing, up_crossing}

pub record EvlFile : Type 0 where
  pub filp : ℕ
  pub crossing : Crossing

-- `struct evl_fd`, less its link.
pub record EvlFd : Type 0 where
  pub fd : ℕ  -- unsigned int
  pub efilp : ℕ
  pub files : ℕ
  pub poll_nodes : List ℕ

pub record FileBinding : Type 0 where
  pub efile : EvlFile
  pub element : ℕ

unfoldable pub get_fileref : EvlFile → EvlFile
unfolding down_crossing
get_fileref efilp = record efilp { crossing = down_crossing efilp.crossing }

unfoldable pub put_file : EvlFile → EvlFile
unfolding up_crossing
put_file efilp = record efilp { crossing = up_crossing efilp.crossing }
