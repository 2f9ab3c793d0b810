-- ===== src/Site/Sidebar/Effects.antt =====
-- The document against the state of site-src/src/components/Sidebar.tsx.
use llm_serve.Base.{◌≡◌, true, false, some, if◌then◌else◌, arith}
use llm_serve.Site.Sidebar.{Document, Sidebar, theme_name, mount, Event, menu, handle}

-- The theme of the document is the chosen one, the stored one too if the storage takes it; the page
-- behind the drawer is locked, and the Escape key heard, exactly while the drawer is open.
pub record InSync (s : Sidebar) : Type 0 where
  pub shown : s.doc.theme ≡ some (theme_name s.theme)
  pub stored : s.doc.writable ≡ true → s.doc.stored ≡ some (theme_name s.theme)
  pub locked : s.doc.overflow ≡ (if s.open_ then "hidden" else "")
  pub heard : s.doc.listeners ≡ s.open_

pub mount-InSync : (d : Document) → d.overflow ≡ "" → d.listeners ≡ false → InSync (mount d)
unfolding mount
mount-InSync d h k = ground arith

-- If the document, the storage and the listeners are in step with the state, every click and key keeps
-- them so.
pub handle-InSync : (e : Event) (s : Sidebar) → InSync s → InSync (handle e s)
unfolding handle
handle-InSync menu s v = ground arith
handle-InSync e s v = ground arith
