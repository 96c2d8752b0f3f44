-- ===== src/Parameters/Fields.antt =====
-- src/engine/engine.cpp: each setting of an engine, from the parameters of its own name.
use qtcontacts_tracker.Base.{Bool, true, not, ◌||◌, if◌then◌else◌, Text, codes, List, [], is_empty}
use qtcontacts_tracker.Parameters.{split, not_empty, lists, contains}

abbrev pub writeback : Bool → Text → Bool
writeback set text = set || (lists text (codes "all") || lists text (codes "presence"))

-- The weak sync targets, and whether all targets are weak.
abbrev pub weak : List Text × Bool → Text → List Text × Bool
weak (targets, all) text =
    let listed = not_empty (split 44 text) in
    if contains listed (codes "all") then ([], true) else (listed, all)

abbrev pub not_native : (Text → Bool) → Text → Bool
not_native to_bool text = not (is_empty text || to_bool text)
