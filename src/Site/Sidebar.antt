-- ===== src/Site/Sidebar.antt =====
-- site-src/src/components/Sidebar.tsx: the theme and the drawer, with what their effects do to the
-- document and to the browser's storage, which may refuse a write.
pub mod Effects
use llm_serve.Base.{
  Bool, true, false, Option, none, some, List, [], ◌∷◌, String, str_eq, if◌then◌else◌,
}

pub data Theme : Type 0 where
  dark light : Theme

-- What of the document and the window the component reads or writes.
pub record Document : Type 0 where
  pub theme : Option String  -- document.documentElement.dataset.theme
  pub stored : Option String  -- localStorage's `theme`
  pub writable : Bool  -- whether localStorage takes a write
  pub overflow : String  -- document.body.style.overflow
  pub listeners : Bool  -- whether `onKey` listens to the window

pub record Sidebar : Type 0 where
  pub theme : Theme
  pub open_ : Bool
  pub doc : Document

abbrev pub theme_name : Theme → String
theme_name dark = "dark"
theme_name light = "light"

-- `dataset.theme === 'light' ? 'light' : 'dark'`
unfoldable pub read_theme : Option String → Theme
read_theme none = dark
read_theme (some t) = if str_eq t "light" then light else dark

-- The effect on `theme`; a refused write is caught.
unfoldable pub theme_effect : Theme → Document → Document
theme_effect t d =
    let d' = record d { theme = some (theme_name t) } in
    if d.writable then record d' { stored = some (theme_name t) } else d'

-- The effect on `open`, and its cleanup.
unfoldable pub open_effect : Bool → Document → Document
open_effect false d = d
open_effect true d = record d { listeners = true; overflow = "hidden" }

unfoldable pub open_cleanup : Bool → Document → Document
open_cleanup false d = d
open_cleanup true d = record d { listeners = false; overflow = "" }

-- The first render with its effects.
unfoldable pub mount : Document → Sidebar
unfolding read_theme theme_effect open_effect
mount d =
    let t = read_theme d.theme in
    record { theme = t; open_ = false; doc = open_effect false (theme_effect t d) }

-- `setOpen(b)` and the effects that React runs if it changes the state.
unfoldable pub set_open : Bool → Sidebar → Sidebar
unfolding open_cleanup open_effect
set_open true s = elim s.open_ [
  | true ↦ s
  | false ↦ record s { open_ = true; doc = open_effect true (open_cleanup false s.doc) }
]
set_open false s = elim s.open_ [
  | false ↦ s
  | true ↦ record s { open_ = false; doc = open_effect false (open_cleanup true s.doc) }
]

abbrev pub flip : Theme → Theme
flip dark = light
flip light = dark

pub data Event : Type 0 where
  menu : Event  -- the button of the top bar
  scrim : Event
  close : Event
  link : Event  -- a link of the navigation, or the brand
  toggle_theme : Event
  key : String → Event

-- The key handler stands only while the drawer is open.
unfoldable pub on_key : Bool → String → Sidebar → Sidebar
unfolding set_open
on_key false k s = s
on_key true k s = if str_eq k "Escape" then set_open false s else s

unfoldable pub handle : Event → Sidebar → Sidebar
unfolding set_open theme_effect on_key
handle menu s = set_open true s
handle scrim s = set_open false s
handle close s = set_open false s
handle link s = set_open false s
handle toggle_theme s = record s { theme = flip s.theme; doc = theme_effect (flip s.theme) s.doc }
handle (key k) s = on_key s.doc.listeners k s
