-- ===== src/Pages.antt =====
-- The pages of a CGI program: WHCgiObject (src/wh/whcgiobject.h, src/wh/whcgiobject.cpp), whose
-- virtual methods are the fields of a record, and the choice among them by WHCgiApplication
-- (src/wh/whcgiapplication.cpp). What is printed is a byte array.
pub mod Markup
pub mod Choice
use webhost.Base.{
  ℕ, zero, suc, Bool, true, false, ◌&&◌, not, List, [], ◌∷◌, ◌++◌, Option, some, none,
  if◌then◌else◌, ◌==◌, ℤ, pos, negsuc,
}
use webhost.Qt.{QString, QByteArray, lit, is_empty, c_string, Library}
use webhost.Daemon.World.{Effect}
use webhost.Post.Form.{PostError, error_ok, error_string, get_value_int}
use webhost.Post.Request.{CgiPost, destroy}

pub record Page : Type 0 where
  pub id : ℤ
  pub menu_text : QString
  pub menu_ref : QString
  -- what renderHead, renderBodyStart, render and renderBodyEnd print
  pub head : QByteArray
  pub body_start : QByteArray
  pub body : QByteArray
  pub body_end : QByteArray

-- What a program has printed when it exits, which it does with status 0, and what it deletes.
pub record Output : Type 0 where
  pub text : QByteArray
  pub effects : List Effect

abbrev pub same_id : ℤ → ℤ → Bool
same_id (pos a) (pos b) = a == b
same_id (pos a) (negsuc b) = false
same_id (negsuc a) (pos b) = false
same_id (negsuc a) (negsuc b) = a == b

abbrev pub is_positive : ℤ → Bool
is_positive (pos n) = not (n == 0)
is_positive (negsuc n) = false

abbrev pub text_line : QByteArray → QByteArray
text_line s = s ++ (10 ∷ [])

-- `addPage`
unfoldable pub add_page : List Page → ℤ → Page → List Page
add_page pages cmd_id page = pages ++ (record page { id = cmd_id }) ∷ []

-- `GetPage`
unfoldable pub get_page : List Page → ℤ → Option Page
get_page [] id = none
get_page (p ∷ ps) id = if same_id p.id id then some p else get_page ps id

module _ (qt : Library) where
  open qt use {to_utf8, number}

  abbrev pub shown : QString → QByteArray
  shown s = c_string (to_utf8 s)

  unfoldable pub menu_entries : List Page → ℤ → QByteArray
  menu_entries [] id = []
  menu_entries (p ∷ ps) id =
      let title =
        if same_id p.id id
        then shown p.menu_text
        else lit "<a href=\""
          ++ (shown p.menu_ref
              ++ (lit "\" class=\"tab-head\">" ++ (shown p.menu_text ++ lit "</a>"))) in
      let entry =
        lit "<td class=\"tab-head\">&#160;"
        ++ (title ++ text_line (lit "&#160;</td><td class=\"tab-head\">|</td>")) in
      (if is_empty p.menu_ref then [] else entry) ++ menu_entries ps id

  -- `RenderMenu`
  unfoldable pub render_menu : List Page → ℤ → QByteArray
  render_menu pages id =
      text_line (lit "<table class=\"tab-head\"><tr class=\"tab-head\">")
      ++ (text_line (lit "<td class=\"tab-head\">|</td>")
          ++ (menu_entries pages id ++ (text_line (lit "</tr></table>") ++ text_line (lit "<br>"))))

  -- `exit`, behind what has been printed
  unfoldable pub exit_with : CgiPost → QByteArray → ℕ → QString → Bool → Output
  exit_with post printed resp_code msg no_cleanup = record {
    text =
        printed
        ++ (if is_empty msg
            then []
            else text_line (lit "Content-type: text/html")
              ++ (text_line (lit "Status: " ++ shown (number (pos resp_code)))
                  ++ (text_line [] ++ text_line (shown msg))));
    effects = if no_cleanup then [] else destroy post;
  }

  -- `redirect`
  unfoldable pub redirect : CgiPost → QByteArray → QString → Bool → Output
  redirect post printed url no_cleanup = record {
    text = printed ++ (lit "Location: " ++ (shown url ++ (10 ∷ 10 ∷ [])));
    effects = if no_cleanup then [] else destroy post;
  }

  -- A page that was found is printed, with the menu if it has a place there.
  unfoldable pub render_found : CgiPost → List Page → QByteArray → ℤ → Page → Output
  render_found post pages printed id page =
      let menu =
        if is_positive id && not (is_empty page.menu_text) then render_menu pages id else [] in
      exit_with post
        (printed ++ (page.head ++ (page.body_start ++ (menu ++ (page.body ++ page.body_end))))) 200
        [] false

  -- The page of the number, or page 0, as they were found; `verb` is what the message says of a
  -- number without a page.
  unfoldable pub render_choice :
      CgiPost → List Page → QByteArray → ℤ → QString → Option Page → Option Page → Output
  render_choice post pages printed id verb (some page) first =
      render_found post pages printed id page
  render_choice post pages printed id verb none (some page) =
      render_found post pages printed id page
  render_choice post pages printed id verb none none =
      exit_with post printed 500 (lit "Unknown page ID " ++ (number id ++ (lit " " ++ verb))) false

  unfoldable pub render_id : CgiPost → List Page → QByteArray → ℤ → QString → Output
  render_id post pages printed id verb =
      render_choice post pages printed id verb (get_page pages id) (get_page pages (pos 0))

  -- `renderPage`, behind what has been printed
  unfoldable pub render_page : CgiPost → List Page → QByteArray → ℤ → Output
  render_page post pages printed id = render_id post pages printed id (lit "requested")

  -- `renderData`
  unfoldable pub render_data : CgiPost → List Page → QByteArray → Output
  render_data post pages printed =
      render_id post pages printed (get_value_int qt post.post (lit "COMMAND")).0 (lit "received")

  -- The constructor ends the program if the request has an error.
  unfoldable pub application : CgiPost → Option Output
  application post =
      let failed : Output = record {
        text =
            text_line (lit "Content-type: text/html")
            ++ (text_line (lit "Status: 500")
                ++ (text_line []
                    ++ text_line (lit "Post Error: " ++ shown (error_string post.post.error))));
        effects = destroy post;
      } in
      elim post.post.error [ error_ok ↦ none | _ ↦ some failed ]
