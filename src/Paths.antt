-- ===== src/Paths.antt =====
-- `std::path::Path` as its sequence of components, by which its `==` and its order are defined.
use doover.Base.{String, List}

pub data Component : Type 0 where
  root_dir cur_dir parent_dir : Component
  normal : String → Component

abbrev pub FilePath : Type 0
FilePath = List Component
