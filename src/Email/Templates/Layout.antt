-- ===== src/Email/Templates/Layout.antt =====
-- src/modules/email/templates/index.ts: `SendEmailTemplate`, the page round a body.
use vnst_be.Base.{List, [], ◌∷◌, Text}
use vnst_be.Email.Templates.Pieces.{Piece, lit, render, hole}

abbrev pub layout_pieces : Text → List Piece
layout_pieces body =
    lit "<!DOCTYPE html>\n"
    ∷ lit "  <html>\n"
    ∷ lit "  \n"
    ∷ lit "  <head>\n"
    ∷ lit "    <meta name=\"viewport\" content=\"width=device-width\" />\n"
    ∷ lit "    <meta http-equiv=\"Content-Type\" content=\"text/html; charset=UTF-8\" />\n"
    ∷ lit "    <title>Nami Innovation</title>\n"
    ∷ lit "  \n"
    ∷ lit "    <link rel=\"preconnect\" href=\"https://fonts.googleapis.com\" />\n"
    ∷ lit "    <link rel=\"preconnect\" href=\"https://fonts.gstatic.com\" crossorigin />\n"
    ∷ lit
        "    <link href=\"https://fonts.googleapis.com/css2?family=Source+Sans+Pro:wght@400;600&display=swap\" rel=\"stylesheet\" />\n"
    ∷ lit "    <style type=\"text/css\">\n"
    ∷ lit "      body {\n"
    ∷ lit "        max-width: 600px;\n"
    ∷ lit "        margin: 0;\n"
    ∷ lit "        padding: 0;\n"
    ∷ lit "        overflow: hidden;\n"
    ∷ lit "        font-family: \"Source Sans Pro\", sans-serif;\n"
    ∷ lit "      }\n"
    ∷ lit "  \n"
    ∷ lit "      .container {\n"
    ∷ lit "        max-width: 600px;\n"
    ∷ lit "        padding: 16px;\n"
    ∷ lit "        margin: 0 auto;\n"
    ∷ lit "      }\n"
    ∷ lit "  \n"
    ∷ lit "      .footer_container {\n"
    ∷ lit "        max-width: 600px;\n"
    ∷ lit "        margin: 0 auto;\n"
    ∷ lit "      }\n"
    ∷ lit "\n"
    ∷ lit "      @media only screen and (max-width: 600px){\n"
    ∷ lit "        .footer_content{\n"
    ∷ lit "          background-size: contain !important;\n"
    ∷ lit "          border: none !important;\n"
    ∷ lit "        }\n"
    ∷ lit "      }\n"
    ∷ lit "      \n"
    ∷ lit "      .footer_content {\n"
    ∷ lit "        background-image: url(\"https://vnst.io/assets/email/bg_footer.png\");\n"
    ∷ lit "        background-repeat: no-repeat;\n"
    ∷ lit "        background-size: cover;\n"
    ∷ lit "        background-position: center;\n"
    ∷ lit "        margin-top: 30px;\n"
    ∷ lit "        border-top: 4px solid #00C096;\n"
    ∷ lit "        width: 100%;\n"
    ∷ lit "      }\n"
    ∷ lit "  \n"
    ∷ lit "      .header_img {\n"
    ∷ lit "        width: 100%;\n"
    ∷ lit "        height: 100%;\n"
    ∷ lit "        margin-left: auto;\n"
    ∷ lit "        margin-right: auto;\n"
    ∷ lit "        box-sizing: border-box;\n"
    ∷ lit "      }\n"
    ∷ lit "  \n"
    ∷ lit "      .wrapper-email {\n"
    ∷ lit "        background-color: #fff;\n"
    ∷ lit "        overflow-x: hidden;\n"
    ∷ lit "      }\n"
    ∷ lit "  \n"
    ∷ lit "      .footer_text {\n"
    ∷ lit "        color: var(--White, #fff);\n"
    ∷ lit "        font-size: 16px;\n"
    ∷ lit "        font-style: normal;\n"
    ∷ lit "        font-weight: 600;\n"
    ∷ lit "        line-height: 18px;\n"
    ∷ lit "        padding: 25px 0px;\n"
    ∷ lit "        white-space: nowrap;\n"
    ∷ lit "      }\n"
    ∷ lit "  \n"
    ∷ lit "      .footer_text img {\n"
    ∷ lit "        width: 32px;\n"
    ∷ lit "        height: 32px;\n"
    ∷ lit "        vertical-align: middle;\n"
    ∷ lit "      }\n"
    ∷ lit "  \n"
    ∷ lit "      .logo_footer {\n"
    ∷ lit "        display: inline-block;\n"
    ∷ lit "        vertical-align: middle;\n"
    ∷ lit "        white-space: nowrap;\n"
    ∷ lit "        margin-bottom: 5px;\n"
    ∷ lit "        width: 32px;\n"
    ∷ lit "        height: 32px;\n"
    ∷ lit "      }\n"
    ∷ lit "  \n"
    ∷ lit "      .logo_footer a {\n"
    ∷ lit "        margin-right: 5px;\n"
    ∷ lit "        text-decoration: none;\n"
    ∷ lit "      }\n"
    ∷ lit "    </style>\n"
    ∷ lit "  </head>\n"
    ∷ lit "  \n"
    ∷ lit "  <body>\n"
    ∷ lit "    <div class=\"wrapper-email\" style=\"background-color: #fff; overflow-x: hidden\">\n"
    ∷ lit "      <div class=\"container\">\n"
    ∷ lit
        "        <img class=\"header_img\" src=\"https://vnst.io/assets/images/cover.png\" alt=\"nami-header\" border=\"0\" />\n"
    ∷ lit "        "
    ∷ hole (body)
    ∷ lit "\n"
    ∷ lit "      </div>\n"
    ∷ lit "      <footer>\n"
    ∷ lit "        <div class=\"footer_container\">\n"
    ∷ lit "          <div class=\"footer_content\">\n"
    ∷ lit "            <table align=\"center\" width=\"100%\">\n"
    ∷ lit "              <tr>\n"
    ∷ lit "                <td width=\"50%\" vertical-align=\"bottom\" align=\"right\">\n"
    ∷ lit "                  <table width=\"50%\" align=\"right\" margin-right=\"40px\">\n"
    ∷ lit "                    <tr>\n"
    ∷ lit "                      <td width=\"10%\">\n"
    ∷ lit "                        <div class=\"footer_text\">\n"
    ∷ lit "                          <div class=\"logo_footer\">\n"
    ∷ lit "                            <a href=\"https://linktr.ee/vnst.io\">\n"
    ∷ lit
        "                              <img src=\"https://vnst.io/assets/email/icons/twitter.png\" alt=\"Twitter\" />\n"
    ∷ lit "                            </a>\n"
    ∷ lit "                          </div>\n"
    ∷ lit "                        </div>\n"
    ∷ lit "                      </td>\n"
    ∷ lit "                      <td width=\"10%\">\n"
    ∷ lit "                        <div class=\"footer_text\">\n"
    ∷ lit "                          <div class=\"logo_footer\">\n"
    ∷ lit "                            <a href=\"https://linktr.ee/vnst.io\">\n"
    ∷ lit
        "                              <img src=\"https://vnst.io/assets/email/icons/discord.png\" alt=\"Discord\" />\n"
    ∷ lit "                            </a>\n"
    ∷ lit "                          </div>\n"
    ∷ lit "                        </div>\n"
    ∷ lit "                      </td>\n"
    ∷ lit "                      <td width=\"10%\">\n"
    ∷ lit "                        <div class=\"footer_text\">\n"
    ∷ lit "                          <div class=\"logo_footer\">\n"
    ∷ lit "                            <a href=\"https://linktr.ee/vnst.io\">\n"
    ∷ lit
        "                              <img src=\"https://vnst.io/assets/email/icons/facebook.png\" alt=\"Facebook\" />\n"
    ∷ lit "                            </a>\n"
    ∷ lit "                          </div>\n"
    ∷ lit "                        </div>\n"
    ∷ lit "                      </td>\n"
    ∷ lit "                      <td width=\"10%\">\n"
    ∷ lit "                        <div class=\"footer_text\">\n"
    ∷ lit "                          <div class=\"logo_footer\">\n"
    ∷ lit "                            <a href=\"https://linktr.ee/vnst.io\">\n"
    ∷ lit
        "                              <img src=\"https://vnst.io/assets/email/icons/telegram.png\" alt=\"Telegram\" />\n"
    ∷ lit "                            </a>\n"
    ∷ lit "                          </div>\n"
    ∷ lit "                        </div>\n"
    ∷ lit "                      </td>\n"
    ∷ lit "                    </tr>\n"
    ∷ lit "                  </table>\n"
    ∷ lit "                </td>\n"
    ∷ lit "              </tr>\n"
    ∷ lit "            </table>\n"
    ∷ lit "          </div>\n"
    ∷ lit "        </div>\n"
    ∷ lit "      </footer>\n"
    ∷ lit "  </body>\n"
    ∷ lit "  </html>\n"
    ∷ []

unfoldable pub send_email_template : Text → Text
send_email_template body = render (layout_pieces body)
