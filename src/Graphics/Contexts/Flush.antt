-- ===== src/Graphics/Contexts/Flush.antt =====
-- A whole flush of a context of src/ppb_graphics2d.c.
use freshplayerplugin.Base.{
  ℕ, Bool, false, not, ◌||◌, Option, none, some, [], ◌==◌, if◌then◌else◌, ◌>>=◌,
}
use freshplayerplugin.Graphics.{ImageData, Graphics2d}
use freshplayerplugin.Graphics.Contexts.Immediate.{replay}
use freshplayerplugin.Graphics.Contexts.{Libraries, Instance, Status, ok, pending, Flushed}

-- The answer of a flush that was begun, and whether the callback is posted then: it is if the
-- context is not the one that the instance shows.
abbrev pub answer : Option ℕ → Status
answer none = ok
answer (some f) = pending

abbrev pub posts : ℕ → Option ℕ → Instance → Bool
posts h none pp_i = false
posts h (some f) pp_i = not (pp_i.instance_graphics == h)

-- The instance then: if it shows the context, it keeps the callback with its loop, and is busy.
abbrev pub kept_by : ℕ → Option ℕ → ℕ → Instance → Instance
kept_by h callback ml pp_i = record pp_i {
  graphics_ccb = if h == pp_i.instance_graphics then callback else pp_i.graphics_ccb;
  graphics_ccb_ml = if h == pp_i.instance_graphics then ml else pp_i.graphics_ccb_ml;
  graphics_in_progress = h == pp_i.instance_graphics || pp_i.graphics_in_progress;
}

abbrev joined : Option (Option Flushed) → Option Flushed
joined o = do result ← o; result

-- the context and the images after the tasks
abbrev pub after_tasks : Libraries → Graphics2d → (ℕ → ImageData) → Graphics2d × (ℕ → ImageData)
after_tasks lib d images = replay lib d.task_list (record d { task_list = [] }) images

abbrev pub shown : Libraries → Graphics2d → (ℕ → ImageData) → Graphics2d
shown lib d images =
    let d' = (after_tasks lib d images).0 in record d' { second_buffer = d'.canvas.pixels }
