-- ===== src/Pages/Markup.antt =====
-- The head and the body of a page: WHCgiPage (src/wh/whcgipage.h, src/wh/whcgipage.cpp). The
-- settings and the time are arguments.
use webhost.Base.{ℕ, [], ◌∷◌, ◌++◌, if◌then◌else◌, pos, negsuc}
use webhost.Qt.{QString, QByteArray, QStringList, lit, is_empty, c_string, Library}
use webhost.Pages.{Page}

pub record Settings : Type 0 where
  pub language : QString
  pub background_color : QString
  pub active_link_color : QString
  pub link_color : QString
  pub visited_link_color : QString

pub record CgiPage : Type 0 where
  pub menu_text : QString
  pub title_text : QString
  pub mime_type : QString
  pub menu_ref : QString
  pub scripts : QStringList
  pub on_load_event : QString
  pub style_sheet : QString

abbrev pub new_page : CgiPage
new_page = record {
  menu_text = [];
  title_text = [];
  mime_type = lit "text/html";
  menu_ref = [];
  scripts = [];
  on_load_event = [];
  style_sheet = [];
}

-- `addScript`
abbrev pub add_script : CgiPage → QString → CgiPage
add_script p scriptname = record p { scripts = p.scripts ++ scriptname ∷ [] }

abbrev new_line : QByteArray → QByteArray
new_line s = s ++ (10 ∷ [])

-- The style of the control bar and of links that do not change.
abbrev fixed_style : QString
fixed_style =
    lit "td {padding: 0px;border-spacing: 0px;border: 0px;}"
    ++ (lit ".tab-head {background-color: #6383B7;color: white;text-align: center;"
        ++ (lit "vertical-align: middle;white-space: nowrap;padding: 0px;border-spacing: 0px;}"
            ++ (lit "a.static-link:link,a.static-link:visited,a.static-link:hover,"
                ++ lit "a.static-link:active {color: #0000ff;}")))

unfoldable pub page_style : Settings → QString
page_style s =
    lit "body {background-color: "
    ++ (s.background_color
        ++ (lit ";}a:active {color: "
            ++ (s.active_link_color
                ++ (lit ";}a:link {color: "
                    ++ (s.link_color
                        ++ (lit ";}a:visited {color: "
                            ++ (s.visited_link_color ++ (lit ";}" ++ fixed_style))))))))

module _ (qt : Library) where
  abbrev printed : QString → QByteArray
  printed s = c_string (qt.to_utf8 s)

  -- `renderScripts`
  unfoldable pub render_scripts : ℕ → QStringList → QByteArray
  render_scripts time [] = []
  render_scripts time (s ∷ ss) =
      new_line (
        lit "<script type=\"text/javascript\" src=\""
        ++ (printed s ++ (lit "?" ++ (printed (qt.number (pos time)) ++ lit "\"></script>"))))
      ++ render_scripts time ss

  -- `renderHead`
  unfoldable pub render_head : Settings → ℕ → CgiPage → QByteArray
  render_head s time p =
      new_line (lit "Content-type: " ++ printed p.mime_type)
      ++ (new_line []
          ++ (new_line (lit "<!doctype html>")
              ++ (new_line (
                    lit "<html itemscope=\"\" itemtype=\"http://schema.org/WebPage\" lang=\""
                    ++ (printed s.language ++ lit "\">"))
                  ++ (new_line (lit "<head>")
                      ++ (new_line (lit "<title>" ++ (printed p.title_text ++ lit "</title>"))
                          ++ (new_line (
                                lit
                                  "<meta content=\"text/html; charset=utf-8\" http-equiv=Content-Type>")
                              ++ (render_scripts time p.scripts
                                  ++ (new_line (lit "<style>")
                                      ++ ((if is_empty p.style_sheet
                                            then []
                                            else new_line (printed p.style_sheet))
                                          ++ (new_line (printed (page_style s))
                                              ++ (new_line (lit "</style>")
                                                  ++ new_line (lit "</head>"))))))))))))

  -- `renderBodyStart`
  unfoldable pub render_body_start : CgiPage → QByteArray
  render_body_start p =
      if is_empty p.on_load_event
      then new_line (lit "<body>")
      else new_line (lit "<body onload=\"" ++ (printed p.on_load_event ++ lit "\">"))

  -- `renderBodyEnd`
  unfoldable pub render_body_end : QByteArray
  render_body_end = new_line (lit "</body></html>")

  -- The page as an object of its base class, until `addPage` gives it a number.
  unfoldable pub page_of : Settings → ℕ → QByteArray → CgiPage → Page
  page_of s time body p = record {
    id = negsuc 0;
    menu_text = p.menu_text;
    menu_ref = p.menu_ref;
    head = render_head s time p;
    body_start = render_body_start p;
    body = body;
    body_end = render_body_end;
  }
