-- ===== src/Grouping/Keys.antt =====
-- src/ui/ConnectionGroupProxy.cpp: the group of a flow and its title.
use qiftop.Common.{ℕ, not, ◌&&◌, [], ◌∷◌, ◌++◌, ltb, if◌then◌else◌, take}
use qiftop.Flow.Types.{Text, Connection, is_empty}
use qiftop.Flow.Wire.{utf16}
use qiftop.Grouping.Arg.{arg}

-- Settings::ConnectionViewMode
pub data ViewMode : Type 0 where
  flat by_interface by_container by_process : ViewMode

-- `decimal` is QString::number.
module _ (decimal : ℕ → Text) where
  unfoldable pub group_key_for : ViewMode → Connection → Text
  group_key_for flat c = []
  group_key_for by_interface c = if is_empty c.iface then utf16 "(unattributed)" else c.iface
  group_key_for by_container c =
      if not (is_empty c.container.id)
      then c.container.runtime ++ (b'/' ∷ c.container.id)
      else if not (is_empty c.container.name)
      then c.container.runtime ++ (b'/' ∷ c.container.name)
      else utf16 "(host)"
  group_key_for by_process c =
      if ltb 0 c.process.pid
      then decimal c.process.pid ++ (b'/' ∷ c.process.comm)
      else utf16 "(unattributed)"

  unfoldable pub group_label_for : ViewMode → Connection → Text
  unfolding arg
  group_label_for flat c = []
  group_label_for by_interface c = if is_empty c.iface then utf16 "(unattributed)" else c.iface
  group_label_for by_container c =
      let display =
        if not (is_empty c.container.name) then c.container.name else take 12 c.container.id in
      if is_empty c.container.id && is_empty c.container.name
      then utf16 "(host)"
      else if is_empty c.container.runtime
      then display
      else c.container.runtime ++ (utf16 ": " ++ display)
  group_label_for by_process c =
      let name =
        if is_empty c.process.comm then utf16 "pid " ++ decimal c.process.pid else c.process.comm in
      if ltb 0 c.process.pid
      then arg (name ++ utf16 "  [pid %2]") (decimal c.process.pid)
      else utf16 "(unattributed)"
